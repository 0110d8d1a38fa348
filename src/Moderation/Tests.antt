-- ===== src/Moderation/Tests.antt =====
-- The theorem on the block and mute lists at a concrete write.
