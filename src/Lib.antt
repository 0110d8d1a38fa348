-- ===== src/Lib.antt =====
-- A verification library for the SentinelMesh web client (apps/pwa).
--
-- The client keeps its state in a Redux store with one slice for each concern (apps/pwa/src/store).
-- WebSockets, relay subscriptions and fetches deliver data in any order and more than once, and the
-- slices turn these deliveries into what is shown. Each slice is modelled as a record for its state,
-- a data type of its actions, one function for each reducer and a function `reducer` over actions;
-- Immer's drafts, which the source mutates in place, are functions from a state to the next one. A
-- run of the program is a fold of `reducer` over a list of actions from `initial_state`.
--
-- - Types: shared/types/index.d.ts, with optional fields as `Option`, and as `Field` where null is
--   allowed besides.
-- - Events, with its children: store/eventsSlice.ts.
-- - Reports: store/reportSlice.ts.
-- - Circles: store/circlesSlice.ts.
-- - Timeline: the comparator and insertion that chatSlice.ts and dmSlice.ts both define.
-- - Chat: store/chatSlice.ts. Dm: store/dmSlice.ts.
-- - Validation, with its children, and Nip29: services/chat/eventValidation.ts and nip29.ts.
-- - Sync, with its children: services/chat/chatSync.ts.
-- - Outbox, with its children: services/chat/outbox.ts and the outbox rows of chatStore.ts.
-- - Participants and Moderation: services/chat/conversationId.ts, dmConversation.ts, circleChat.ts
--   and moderation.ts.
-- - ChatStore, with its children: the rest of services/chat/chatStore.ts. Tables: rows by key. Cursors
--   and Order: pages of messages through an index. KeyCalls: calls that create the key, cut at their
--   awaits. Newest, Channels, Sealing and KeyCalls.Race: what they prove.
-- - Inbox, with its children: the receiving side of services/chat/nip59.ts, nip17.ts and inbox.ts.
-- - Send, with its children: the sending side of nip59.ts and nip17.ts, and dmSend.ts.
-- - InboxSync, with its children: hooks/useInboxSync.ts, whose tasks take a wrap through Inbox, store
--   the message in ChatStore and dispatch it to Dm.
-- - Signer: the state of services/signerService.ts and bunkerStore.ts's record. Signer.Schedule: its
--   functions, cut at their awaits, and a step of the scheduler, which makes a call or lets one that
--   waits run on. Signer.Genuine and Signer.Sessions: their laws. Signer.Pointer: connection
--   addresses. Signer.Capabilities, with its child: the signer that the chat asks for.
-- - Vault and Vault.Circles: services/identityStore.ts, with RoundTrip, Identity, Keys, Newest and
--   Fingerprint for what they prove. CircleKeys, with its children: the key store of
--   services/e2eeService.ts, which writes to the vault. KeyEvents, with its children: the
--   events of the same file by which an owner sends a key to members. CircleLocation, with its
--   children: the acceptance of its location envelopes, and Encryption, the making of them.
--   CircleSocket, with its children: services/circleWebSocket.ts, which takes a key from the store,
--   opens an envelope with it and dispatches to the circles slice.
-- - LocationPublisher, with its children: services/locationPublisher.ts, whose calls of `publish` take a
--   key from the store, make an envelope and post it.
-- - CircleRecords, with its children: toCircleAndMembers of hooks/useCircles.ts, which opens key events
--   and labels.
-- - Backup, with its children: applyRestore of services/backupService.ts, with what it calls of
--   nostrService.ts and circleIdStore.ts, over the vault and the key store.
--   Backup.Files: export and decryption of a backup.
-- - Responses, with its children: what services/safetyDataApi.ts and getRoute of mapApiService.ts take
--   from the gateway's answers.
-- - LiveSocket, with its child: services/websocket.ts, which dispatches to the events and reports.
-- - View, with its children: the other slices, which hold local view state.
-- - Common, with its children: arrays as lists, objects used as maps, sets, texts and tests on numbers.
--
-- Numbers that the code counts or orders by (times, epochs, counters) are natural numbers, exact also
-- above 2 ^ 53, where a number that is read from a text would be rounded in the source; floating
-- point values are bit patterns (`Double`), which only CircleLocation and Responses compare,
-- and values of unknown shape opaque texts (`Json`). Texts are compared by code points. `toLowerCase`
-- changes the letters A to Z. An object used as a map is the function that reads it. Types are trusted at run time where the
-- source trusts them: a payload has the type that its action declares. `sort` is an insertion sort,
-- which agrees with the array method on the comparators used. Every loop is over a
-- list or counts to a bound, but those for the digits of a number, where the number itself is fuel
-- enough, and for the cursor of ChatStore, whose fuel must exceed the number of rows.
--
-- An async function of the signer is cut at its awaits, and its theorems are about every order in
-- which calls and answers follow one another. The tasks of InboxSync and the calls of KeyCalls and
-- LocationPublisher are cut in the same way. The vault's functions run under a lock and are single
-- steps; those of the key store are single steps too.
--
-- Not modelled: rendering, failures of the browser's storage, the network, cryptography (signature
-- checks, ciphers, base64 and JSON are parameters), the arithmetic of approximate positions, the older
-- format of locations, the identity cache (services/nostrService.ts), public channels and relay discovery (services/chat, services/relay),
-- proximity alerts and threats (hooks), address searches, and the services behind the client
-- (services/gateway, services/signal).
pub mod Common
pub mod Types
pub mod Events
pub mod Reports
pub mod Circles
pub mod Timeline
pub mod Chat
pub mod Dm
pub mod Validation
pub mod Nip29
pub mod Sync
pub mod Outbox
pub mod View
pub mod Participants
pub mod Moderation
pub mod Inbox
pub mod Send
pub mod Signer
pub mod Vault
pub mod CircleKeys
pub mod CircleLocation
pub mod CircleSocket
pub mod LiveSocket
pub mod Backup
pub mod ChatStore
pub mod KeyEvents
pub mod InboxSync
pub mod Responses
pub mod CircleRecords
pub mod LocationPublisher
