-- ===== src/Session.antt =====
-- The split connection and the session over it: openvpn-mgmt-codec/src/split.rs, management_event.rs
-- and session.rs. `Framed` of tokio_util, its two halves and the socket are a `Transport`.
pub mod Await
pub mod Methods
pub mod Queries
pub mod Sink
pub mod Laws
pub mod Replies
pub mod Wires
pub mod Unexpected
use openvpn_mgmt_codec.Prelude.{
  ℕ, zero, suc, List, [], ◌∷◌, ◌++◌, Bool, true, false, if◌then◌else◌, Option, none, some,
}
use openvpn_mgmt_codec.Prelude.Results.{Result, ok, err}
use openvpn_mgmt_codec.Text.{Str}
use openvpn_mgmt_codec.Message.Types.{
  OvpnMessage, Notification, success, error, multi_line, notification,
}
use openvpn_mgmt_codec.Values.StreamMode.{StreamMode, returns_history}
use openvpn_mgmt_codec.Command.Types.{OvpnCommand}
use openvpn_mgmt_codec.Session.Await.{
  Transport, Next, item, closed, pending, EventStream, SessionError, Async, Awaited, done, waiting,
  out_of_fuel, io, connection_closed, server_error, unexpected_response, ◌>>=◌, ◌>>◌, pure,
}

pub data ManagementEvent : Type 0 where
  response : OvpnMessage → ManagementEvent
  notification_event : Notification → ManagementEvent

-- `From<OvpnMessage>`
unfoldable pub event_from : OvpnMessage → ManagementEvent
event_from (notification n) = notification_event n
event_from m = response m

-- `management_split`: the halves share the transport, so it stands in the event stream only.
unfoldable pub management_split : {L : Type 0} → L → EventStream L
management_split framed = record { inner = framed; stash = [] }

unfoldable pub drain_notifications :
    {L : Type 0} → EventStream L → EventStream L × List Notification
drain_notifications s = (record s { stash = [] }, s.stash)

-- `result.map(ManagementEvent::from)` on what the transport gives.
pub data PolledEvent (E : Type 0) : Type 0 where
  event : ManagementEvent → PolledEvent E
  failed : E → PolledEvent E
  ended nothing_yet : PolledEvent E

abbrev pub polled_from : {E : Type 0} → Next E → PolledEvent E
polled_from (item (ok m)) = event (event_from m)
polled_from (item (err e)) = failed e
polled_from closed = ended
polled_from pending = nothing_yet

module _ {L E : Type 0} (T : Transport L E) where
  open T use {send, next}

  -- The stash comes first.
  unfoldable pub poll_next : EventStream L → EventStream L × PolledEvent E
  poll_next s = elim s.stash [
    | n ∷ stash ↦ (record s { stash = stash }, event (notification_event n))
    | [] ↦ let polled = next s.inner in (record s { inner = polled.0 }, polled_from polled.1)
  ]

  -- One `next().await` of the loop: a notification is stashed, and `again` is the next round.
  abbrev pub received :
      (EventStream L → EventStream L × Awaited E OvpnMessage)
      → EventStream L
      → Next E
      → EventStream L × Awaited E OvpnMessage
  received again s (item (ok (notification n))) = again (record s { stash = s.stash ++ (n ∷ []) })
  received again s (item (ok m)) = (s, done (ok m))
  received again s (item (err e)) = (s, done (err (io e)))
  received again s closed = (s, done (err connection_closed))
  received again s pending = (s, waiting)

  -- A round for each notification that comes before the response.
  unfoldable pub recv_response : ℕ → Async L E OvpnMessage
  recv_response zero s = (s, out_of_fuel)
  recv_response (suc fuel) s =
      let polled = next s.inner in
      received (recv_response fuel) (record s { inner = polled.0 }) polled.1

  abbrev pub expect_success : OvpnMessage → Result (SessionError E) Str
  expect_success (success payload) = ok payload
  expect_success (error msg) = err (server_error msg)
  expect_success other = err (unexpected_response other)

  abbrev pub expect_multi_line : OvpnMessage → Result (SessionError E) (List Str)
  expect_multi_line (multi_line lines) = ok lines
  expect_multi_line (error msg) = err (server_error msg)
  expect_multi_line other = err (unexpected_response other)

  unfoldable pub recv_success : ℕ → Async L E Str
  recv_success fuel = do m ← recv_response fuel; λ s. (s, done (expect_success m))

  unfoldable pub recv_multi_line : ℕ → Async L E (List Str)
  recv_multi_line fuel = do m ← recv_response fuel; λ s. (s, done (expect_multi_line m))

  unfoldable pub recv_ok : ℕ → Async L E (Unit {0})
  recv_ok fuel = do payload ← recv_success fuel; pure tt

  abbrev sent : Result E (Unit {0}) → Result (SessionError E) (Unit {0})
  sent (ok u) = ok u
  sent (err e) = err (io e)

  unfoldable pub send_command : OvpnCommand → Async L E (Unit {0})
  send_command cmd s = let r = send s.inner cmd in (record s { inner = r.0 }, done (sent r.1))

  unfoldable pub send_expect_success : ℕ → OvpnCommand → Async L E Str
  send_expect_success fuel cmd = do send_command cmd; recv_success fuel

  unfoldable pub send_expect_multi_line : ℕ → OvpnCommand → Async L E (List Str)
  send_expect_multi_line fuel cmd = do send_command cmd; recv_multi_line fuel

  unfoldable pub send_expect_ok : ℕ → OvpnCommand → Async L E (Unit {0})
  send_expect_ok fuel cmd = do send_command cmd; recv_ok fuel

  unfoldable pub send_stream_command : ℕ → StreamMode → OvpnCommand → Async L E (Option (List Str))
  send_stream_command fuel mode cmd =
      if returns_history mode
      then (send_expect_multi_line fuel cmd >>= λ lines. pure (some lines))
      else (send_expect_ok fuel cmd >> pure none)
