-- ===== src/LiveSocket.antt =====
-- The socket for safety events and reports: useWsConnection (apps/pwa/src/services/websocket.ts) with
-- the two slices that it dispatches to. Sockets and timers have numbers; the browser runs a socket's
-- handlers and fires a timer as the steps say. A message is given with what parseEvent or parseReport
-- (safetyDataApi.ts) makes of its payload. The random part of a delay is left out, since no state
-- depends on it.
pub mod Reconnection
mod Tests
use sentinelmesh.Common.{
  ℕ, ◌+◌, ◌*◌, ◌^◌, min, String, Bool, true, false, ◌&&◌, not, List, [], ◌∷◌, filter, any, Option,
  none, some, eqb, if◌then◌else◌,
}
use sentinelmesh.Types.{SafetyEvent, CommunityReport}
use sentinelmesh.Events
use sentinelmesh.Events.{EventsState}
use sentinelmesh.Reports
use sentinelmesh.Reports.{ReportsState}

-- The refs, the sockets that are not closed and, of these, those on which `close` was called, which
-- have no other event left than that they are closed; the timers that are set; the two slices.
pub record Hook : Type 0 where
  pub socket_ref : Option ℕ
  pub timer_ref : Option ℕ
  pub retry_count : ℕ
  pub sockets : List ℕ
  pub closing : List ℕ
  pub timers : List ℕ
  pub next : ℕ
  pub events : EventsState
  pub reports : ReportsState

pub data SafetyMessage : Type 0 where
  -- `NEW_EVENT` and `EVENT_UPDATED`, with the parsed payload.
  event_message : Option SafetyEvent → SafetyMessage
  -- `EVENT_RESOLVED`, with the id if it is a text.
  resolved_message : Option String → SafetyMessage
  -- `NEW_REPORT` and `REPORT_UPDATED`.
  report_message : Option CommunityReport → SafetyMessage
  -- Any other type, and what is no JSON.
  other_message : SafetyMessage

pub data SocketStep : Type 0 where
  opened : ℕ → SocketStep
  received : ℕ → SafetyMessage → SocketStep
  -- With the code of the close event.
  closed : ℕ → ℕ → SocketStep
  errored : ℕ → SocketStep
  fired : ℕ → SocketStep
  unmounted : SocketStep

abbrev pub has : ℕ → List ℕ → Bool
has n ns = any (eqb n) ns

abbrev pub without : ℕ → List ℕ → List ℕ
without n ns = filter (λ m. not (eqb n m)) ns

-- `Math.min(BACKOFF_BASE_MS * Math.pow(2, attempt), BACKOFF_CAP_MS)`
abbrev pub backoff : ℕ → ℕ
backoff attempt = min (1000 * 2 ^ attempt) 30000

unfoldable pub connect : Hook → Hook
connect h = record h { socket_ref = some h.next; sockets = h.next ∷ h.sockets; next = h.next + 1 }

unfoldable pub on_open : Hook → Hook
on_open h = record h {
  retry_count = 0;
  events = Events.reducer h.events (Events.set_connected true);
}

unfoldable pub on_message : Hook → SafetyMessage → Hook
on_message h (event_message (some event)) = record h {
  events = Events.reducer h.events (Events.event_received event);
}
on_message h (event_message none) = h
on_message h (resolved_message (some id)) = record h {
  events = Events.reducer h.events (Events.event_resolved id);
}
on_message h (resolved_message none) = h
on_message h (report_message (some report)) = record h {
  reports = Reports.reducer h.reports (Reports.report_received report);
}
on_message h (report_message none) = h
on_message h other_message = h

unfoldable pub on_close : Hook → ℕ → Hook
on_close h code =
    let h' = record h { events = Events.reducer h.events (Events.set_connected false) } in
    if eqb code 1000 then record h' { retry_count = 0 } else record h' {
      retry_count = h.retry_count + 1;
      timer_ref = some h.next;
      timers = h.next ∷ h.timers;
      next = h.next + 1;
    }

-- `close()` on a socket, without a code: its close event comes later.
abbrev pub close_socket : ℕ → Hook → Hook
close_socket socket h = record h { closing = socket ∷ h.closing }

abbrev pub close_ref : Option ℕ → Hook → Hook
close_ref none h = h
close_ref (some socket) h = close_socket socket h

abbrev pub clear_timer : Option ℕ → Hook → Hook
clear_timer none h = h
clear_timer (some timer) h = record h { timers = without timer h.timers }

-- The clean-up: `close()` on the socket of the ref and `clearTimeout` of the last timer.
unfoldable pub clean_up : Hook → Hook
clean_up h = clear_timer h.timer_ref (close_ref h.socket_ref h)

-- Not closed, nor about to be.
abbrev pub is_live : ℕ → Hook → Bool
is_live socket h = has socket h.sockets && not (has socket h.closing)

unfoldable pub step : Hook → SocketStep → Hook
step h (opened socket) = if is_live socket h then on_open h else h
step h (received socket message) = if is_live socket h then on_message h message else h
step h (closed socket code) =
    if has socket h.sockets
    then on_close (record h { sockets = without socket h.sockets }) code
    else h
step h (errored socket) = if has socket h.sockets then close_socket socket h else h
step h (fired timer) =
    if has timer h.timers then connect (record h { timers = without timer h.timers }) else h
step h unmounted = clean_up h
