-- ===== src/View/Acoustic.antt =====
-- The state of acoustic detection (apps/pwa/src/store/acousticSlice.ts) and the detection that
-- constants/acousticThreats.ts declares. The confidence is a stored floating point value; `now` is
-- the clock when a detection is reduced.
use sentinelmesh.Common.{ℕ, String, Bool, true, false, Option, none, some}
use sentinelmesh.Types.{Double}

pub data ThreatCategory : Type 0 where
  security_incident fire civil_unrest accident : ThreatCategory

pub record ThreatDetection : Type 0 where
  pub class_index : ℕ
  pub label : String
  pub category : ThreatCategory
  pub confidence : Double
  pub fingerprint : Option String

pub record AcousticState : Type 0 where
  pub is_running : Bool
  pub current_alert : Option ThreatDetection
  pub last_detection_at : Option ℕ

abbrev pub initial_state : AcousticState
initial_state = record { is_running = false; current_alert = none; last_detection_at = none }

pub data AcousticAction : Type 0 where
  detection_started : AcousticAction
  detection_stopped : AcousticAction
  detection_received : ℕ → ThreatDetection → AcousticAction
  alert_dismissed : AcousticAction

unfoldable pub reducer : AcousticState → AcousticAction → AcousticState
reducer s detection_started = record s { is_running = true }
reducer s detection_stopped = record s { is_running = false }
reducer s (detection_received now detection) = record s {
  current_alert = some detection;
  last_detection_at = some now;
}
reducer s alert_dismissed = record s { current_alert = none }
