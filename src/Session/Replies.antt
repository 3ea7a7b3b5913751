-- ===== src/Session/Replies.antt =====
-- The methods of `ManagementSession` (openvpn-mgmt-codec/src/session.rs) and what the connection
-- answers.
use mathlib.Core.List.{map}
use openvpn_mgmt_codec.Prelude.{
  ℕ, ◌<◌, ◌≤◌, ◌≡◌, refl, List, ◌++◌, length, none, if◌then◌else◌, All,
}
use openvpn_mgmt_codec.Prelude.Results.{ok}
use openvpn_mgmt_codec.Text.{Str, codes}
use openvpn_mgmt_codec.Text.Decimal.{to_string, max_u32}
use openvpn_mgmt_codec.Values.StreamMode.{StreamMode, returns_history, on, off, all, on_all, recent}
use openvpn_mgmt_codec.Message.Types.{OvpnMessage, Notification, success, multi_line, StateEntry}
use openvpn_mgmt_codec.Command.Types.{OvpnCommand, log, echo, state_stream}
use openvpn_mgmt_codec.Command.Types as Command
use openvpn_mgmt_codec.Command.Response.{
  ResponseKind, expected_response, stream_response, success_or_error,
}
use openvpn_mgmt_codec.Command.Response
use openvpn_mgmt_codec.Responses.Laws.{
  parse_pid-to_string, stats_text, parse_load_stats-latest, IsItem, latest, stats_of,
}
use openvpn_mgmt_codec.Responses.StateLaws.{IsEntry, entry_text, parse_state_history-entry_text}
use openvpn_mgmt_codec.Session.Await.{
  Transport, Next, item, pending, EventStream, Awaited, done, waiting, parsed,
}
use openvpn_mgmt_codec.Session.{
  response, event_from, send_command, recv_response, recv_success, recv_multi_line, expect_success,
  expect_multi_line, send_expect_success, send_expect_multi_line,
}
use openvpn_mgmt_codec.Session.Laws.{Reads, Ends, a_response, no_more, recv_response-Reads}
use openvpn_mgmt_codec.Session.Queries.{pid, state, load_stats, pkcs11_id_count}

-- Behind the notifications `ns`, which are in the stash, with the connection at `l'`.
abbrev pub read_on : {L : Type 0} → EventStream L → List Notification → L → EventStream L
read_on s ns l' = record { inner = l'; stash = s.stash ++ ns }

module _ {L E : Type 0} (T : Transport L E) where
  open T use {send, next}

  -- The command is sent, and the connection then gives the notifications and the message.
  pub record Exchange (s : EventStream L) (cmd : OvpnCommand) (ns : List Notification) (e : Next E)
      (l' : L) : Type 0 where
    pub sent_to : L
    pub ends_at : L
    pub is_sent : send s.inner cmd ≡ (sent_to, ok tt)
    pub is_read : Reads T sent_to ns ends_at
    pub is_next : next ends_at ≡ (l', e)

  module _ (fuel : ℕ) (s : EventStream L) (cmd : OvpnCommand) {ns : List Notification} {l' : L}
      (lt : length ns < fuel) where
    received_after :
        {e : Next E} {a : Awaited E OvpnMessage} (x : Exchange s cmd ns e l')
        → Ends T e a
        → recv_response T fuel (record s { inner = x.sent_to }) ≡ (read_on s ns l', a)
    received_after x ends =
        recv_response-Reads T fuel (record s { inner = x.sent_to }) x.is_read x.is_next ends lt

    pub send_expect_success-Exchange :
        (m : OvpnMessage)
        → Exchange s cmd ns (item (ok m)) l'
        → event_from m ≡ response m
        → send_expect_success T fuel cmd s ≡ (read_on s ns l', done (expect_success T m))
    unfolding send_expect_success send_command recv_success
    send_expect_success-Exchange m x r = rw (x.is_sent, received_after x (a_response m r)) refl

    pub send_expect_multi_line-Exchange :
        (m : OvpnMessage)
        → Exchange s cmd ns (item (ok m)) l'
        → event_from m ≡ response m
        → send_expect_multi_line T fuel cmd s ≡ (read_on s ns l', done (expect_multi_line T m))
    unfolding send_expect_multi_line send_command recv_multi_line
    send_expect_multi_line-Exchange m x r = rw (x.is_sent, received_after x (a_response m r)) refl

    pub send_expect_success-waiting :
        Exchange s cmd ns pending l' → send_expect_success T fuel cmd s ≡ (read_on s ns l', waiting)
    unfolding send_expect_success send_command recv_success
    send_expect_success-waiting x = rw (x.is_sent, received_after x no_more) refl

  module _ (fuel : ℕ) (s : EventStream L) {ns : List Notification} {l' : L}
      (lt : length ns < fuel) where
    pub pid-to_string :
        (n : ℕ)
        → n ≤ max_u32
        → Exchange s Command.pid ns (item (ok (success (codes "pid=" ++ to_string n)))) l'
        → pid T fuel s ≡ (read_on s ns l', done (ok n))
    unfolding pid event_from
    pid-to_string n h x =
        rw (send_expect_success-Exchange fuel s Command.pid lt _ x refl, parse_pid-to_string n h)
          refl

    pub state-entry_text :
        (es : List StateEntry)
        → All IsEntry es
        → Exchange s Command.state ns (item (ok (multi_line (map entry_text es)))) l'
        → state T fuel s ≡ (read_on s ns l', done (ok es))
    unfolding state event_from
    state-entry_text es h x =
        rw
          (
            send_expect_multi_line-Exchange fuel s Command.state lt _ x refl,
            parse_state_history-entry_text es h,
          )
          refl

    pub pkcs11_id_count-waiting :
        Exchange s Command.pkcs11_id_count ns pending l'
        → pkcs11_id_count T fuel s ≡ (read_on s ns l', waiting)
    unfolding pkcs11_id_count
    pkcs11_id_count-waiting x = send_expect_success-waiting fuel s Command.pkcs11_id_count lt x

    pub load_stats-stats_text :
        (items : List (Str × ℕ))
        → All IsItem items
        → Exchange s Command.load_stats ns (item (ok (success (stats_text items)))) l'
        → load_stats T fuel s
          ≡ parsed
              (stats_of
                (latest (codes "nclients") none items)
                (latest (codes "bytesin") none items)
                (latest (codes "bytesout") none items))
              (read_on s ns l')
    unfolding load_stats event_from
    load_stats-stats_text items h x =
        rw
          (
            send_expect_success-Exchange fuel s Command.load_stats lt _ x refl,
            parse_load_stats-latest items h,
          )
          refl

-- For every stream mode, the codec expects a response of several lines to `log`, `echo` and
-- `state` with that mode exactly if the session waits for one, and an acknowledgement
-- otherwise.
expected_response-returns_history :
    (mode : StreamMode)
    → let kind = if returns_history mode then Response.multi_line else success_or_error in
      (expected_response (log mode) ≡ kind)
      × (expected_response (echo mode) ≡ kind)
      × (expected_response (state_stream mode) ≡ kind)
unfolding expected_response stream_response returns_history
expected_response-returns_history on = (refl, refl, refl)
expected_response-returns_history off = (refl, refl, refl)
expected_response-returns_history all = (refl, refl, refl)
expected_response-returns_history on_all = (refl, refl, refl)
expected_response-returns_history (recent n) = (refl, refl, refl)
