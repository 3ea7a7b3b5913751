-- ===== src/Tests/Session.antt =====
-- The session over a connection that gives a fixed row of messages: concrete runs.
use mathlib.Core.Path.{subst}
use openvpn_mgmt_codec.Prelude.{suc, ◌+◌, ◌≡◌, refl, sym, List, [], ◌∷◌, ◌++◌, arith, All, length}
use openvpn_mgmt_codec.Prelude.Results.{Result, ok, err}
use openvpn_mgmt_codec.Text.{Str, codes, strip_prefix, str_eq, trim_end_by}
use openvpn_mgmt_codec.Frame.Types.{Frame}
use openvpn_mgmt_codec.Command.Types.{OvpnCommand}
use openvpn_mgmt_codec.Command.Types as Command
use openvpn_mgmt_codec.Command.Response.{expected_response}
use openvpn_mgmt_codec.Message.Types.{
  OvpnMessage, Notification, success, multi_line, info, notification, pkcs11_id_entry,
}
use openvpn_mgmt_codec.Message.Types
use openvpn_mgmt_codec.Message.Parse.{parse_notification_from_frame}
use openvpn_mgmt_codec.Message.Parse.Password.{parse_kind}
use openvpn_mgmt_codec.Codec.Decode.{is_malformed}
use openvpn_mgmt_codec.Codec.Decode.Responses.{
  Reply, succeeded, answered, a_line, nil, aside, a_notification,
}
use openvpn_mgmt_codec.Codec.Decode.Polls.{polls, wires, IsReadable}
use openvpn_mgmt_codec.Codec.Pipeline.{encode_all}
use openvpn_mgmt_codec.Session.Await.{
  Transport, Next, item, pending, EventStream, done, unexpected_response,
}
use openvpn_mgmt_codec.Session.{
  event, recv_response, send_expect_success, send_expect_multi_line, event_from, response,
}
use openvpn_mgmt_codec.Session.Laws.{
  Reads, cons, a_response, recv_response-Reads, recv_response-poll_times, poll_times,
  notification_events,
}
use openvpn_mgmt_codec.Session.Laws as Laws
use openvpn_mgmt_codec.Session.Queries.{version, pkcs11_id_get}
use openvpn_mgmt_codec.Session.Replies.{read_on}
use openvpn_mgmt_codec.Session.Unexpected.{
  entry_payload, entry_frame, polls-entry, polls-version, pkcs11_id_get-pkcs11_id_entry,
  version-info,
}
use openvpn_mgmt_codec.Frame.Decoder.Lines.{IsLine, wire}
use openvpn_mgmt_codec.Codec.State
use openvpn_mgmt_codec.Tests.Codec
use openvpn_mgmt_codec.Tests.Codec.{ready, no_base64, reply-IsReadable}
use openvpn_mgmt_codec.Session.Wires.{
  messages, Acknowledged, Gives, polls-Reply, send_expect_success-Acknowledged,
  send_expect_multi_line-Reply,
}

-- The messages that are still to come; a command changes nothing, and then nothing comes.
script : Transport (List OvpnMessage) (Unit {0})
script = record { send = λ l cmd. (l, ok tt); next = next_of }
  where
    next_of : List OvpnMessage → List OvpnMessage × Next (Unit {0})
    next_of [] = ([], pending)
    next_of (m ∷ ms) = (ms, item (ok m))

abbrev hold : Notification
hold = Types.hold (codes "x")

abbrev stream : List OvpnMessage → EventStream (List OvpnMessage)
stream ms = record { inner = ms; stash = [] }

abbrev answer : OvpnMessage
answer = success (codes "pid=7")

hold-Reads : (m : OvpnMessage) → Reads script (notification hold ∷ m ∷ []) (hold ∷ []) (m ∷ [])
unfolding script
hold-Reads m = cons hold refl Laws.nil

recv_response-Reads_example :
    recv_response script 2 (stream (notification hold ∷ answer ∷ []))
    ≡ (record { inner = []; stash = hold ∷ [] }, done (ok answer))
unfolding script event_from
recv_response-Reads_example =
    recv_response-Reads script 2 (stream (notification hold ∷ answer ∷ [])) (hold-Reads answer) refl
      (a_response answer refl) (omega arith)

recv_response-poll_times_example :
    let r = recv_response script 2 (stream (notification hold ∷ answer ∷ [])) in
    (poll_times script 1 (r.0) ≡ (stream [], notification_events script (hold ∷ [])))
    × (poll_times script 2 (stream (notification hold ∷ answer ∷ []))
        ≡ (stream [], notification_events script (hold ∷ []) ++ (event (response answer) ∷ [])))
unfolding script event_from
recv_response-poll_times_example =
    recv_response-poll_times script 2 (stream (notification hold ∷ answer ∷ [])) (hold-Reads answer)
      refl refl (omega arith)

abbrev id_entry : OvpnMessage
id_entry = pkcs11_id_entry (codes "1") (codes "id") (codes "blob")

-- The reply to `pid` behind a notification, and the reply to `version`.
abbrev pid_frames : List Frame
pid_frames = Codec.hold ∷ Frame.success (codes "pid=7") ∷ []

pid_frames-IsReadable : All IsReadable pid_frames
pid_frames-IsReadable = (reply-IsReadable.1.1.0, (reply-IsReadable.0, tt))

pid-Reply :
    Reply ready.max_multi_line_lines
      (expected_response Command.pid)
      pid_frames
      (messages (hold ∷ []) answer)
unfolding messages expected_response parse_notification_from_frame parse_kind str_eq
pid-Reply = aside (a_notification (codes "HOLD") (codes "x")) (succeeded (codes "pid=7") tt)

abbrev polled : OvpnCommand → List Frame → List OvpnMessage
polled command fs =
    (polls (length (wires fs) + 1) (encode_all no_base64 ready ((command, []) ∷ []))
      (wires fs)).messages

given_pid : Gives script (messages (hold ∷ []) answer) (polled Command.pid pid_frames) []
unfolding script messages
given_pid =
    subst (λ ms. Gives script (messages (hold ∷ []) answer) ms [])
      (sym
        (polls-Reply no_base64 ready Command.pid [] refl refl refl pid_frames-IsReadable pid-Reply))
      (answer ∷ [], refl, ([], refl, refl))

send_expect_success-Acknowledged_example :
    (r : Result _ Str) × Acknowledged (Unit {0}) answer r
    × (send_expect_success script 2 Command.pid (stream (messages (hold ∷ []) answer))
        ≡ (read_on (stream (messages (hold ∷ []) answer)) (hold ∷ []) [], done r))
unfolding script expected_response
send_expect_success-Acknowledged_example =
    send_expect_success-Acknowledged script no_base64 ready Command.pid [] 2
      (stream (messages (hold ∷ []) answer)) (messages (hold ∷ []) answer) [] pid_frames (hold ∷ [])
      refl refl refl pid_frames-IsReadable refl given_pid (omega arith) answer refl pid-Reply

abbrev version_frames : List Frame
version_frames = Frame.line (codes "V: 2") ∷ Frame.end ∷ []

version_frames-IsReadable : All IsReadable version_frames
version_frames-IsReadable = (reply-IsReadable.1.0, (reply-IsReadable.1.1.1.0, tt))

version-Reply :
    Reply ready.max_multi_line_lines
      (expected_response Command.version)
      version_frames
      (messages [] (multi_line (codes "V: 2" ∷ [])))
unfolding messages expected_response is_malformed strip_prefix
version-Reply = answered (a_line (codes "V: 2") refl nil) (omega arith)

given_version :
    Gives script (multi_line (codes "V: 2" ∷ []) ∷ []) (polled Command.version version_frames) []
unfolding script messages
given_version =
    subst (λ ms. Gives script (multi_line (codes "V: 2" ∷ []) ∷ []) ms [])
      (sym (
        polls-Reply no_base64 ready Command.version [] refl refl refl version_frames-IsReadable
          version-Reply))
      ([], refl, refl)

send_expect_multi_line-Reply_example :
    send_expect_multi_line script 1 Command.version (stream (multi_line (codes "V: 2" ∷ []) ∷ []))
    ≡ (stream [], done (ok (codes "V: 2" ∷ [])))
unfolding script
send_expect_multi_line-Reply_example =
    send_expect_multi_line-Reply script no_base64 ready Command.version [] 1
      (stream (multi_line (codes "V: 2" ∷ []) ∷ [])) (multi_line (codes "V: 2" ∷ []) ∷ []) []
      version_frames [] refl refl refl version_frames-IsReadable refl given_version (omega arith)
      (codes "V: 2" ∷ []) version-Reply

entry-IsLine : IsLine (wire (entry_frame (codes "1") (codes "id") (codes "blob")))
unfolding entry_payload trim_end_by
entry-IsLine = (omega arith, omega arith, refl)

abbrev entry_polled : List OvpnMessage
entry_polled =
    polled (Command.pkcs11_id_get 1) (entry_frame (codes "1") (codes "id") (codes "blob") ∷ [])

given_entry : Gives script (id_entry ∷ []) entry_polled []
unfolding script
given_entry =
    subst (λ ms. Gives script (id_entry ∷ []) ms [])
      (sym (
        polls-entry no_base64 ready [] refl refl 1 (codes "1") (codes "id") (codes "blob") refl
          entry-IsLine (omega arith) (omega arith)))
      ([], refl, refl)

pkcs11_id_get-pkcs11_id_entry_example :
    pkcs11_id_get script 1 1 (stream (id_entry ∷ []))
    ≡ (stream [], done (err (unexpected_response id_entry)))
unfolding script
pkcs11_id_get-pkcs11_id_entry_example =
    pkcs11_id_get-pkcs11_id_entry script no_base64 ready [] 1 (stream (id_entry ∷ []))
      (id_entry ∷ []) [] refl refl (omega arith) 1 (codes "1") (codes "id") (codes "blob") refl
      entry-IsLine (omega arith) (omega arith) refl given_entry

-- The banner of a new connection, and then the reply to `version`.
abbrev banner : Str
banner = codes "OpenVPN"

abbrev greeting : List OvpnMessage
greeting = info banner ∷ multi_line (codes "V: 2" ∷ []) ∷ []

banner-IsLine : IsLine (wire (Frame.info banner))
unfolding trim_end_by
banner-IsLine = (omega arith, omega arith, refl)

given_banner :
    Gives script greeting
      (polls
        (suc (length (wires version_frames) + 1))
        (encode_all no_base64 State.new ((Command.version, []) ∷ []))
        (wires (Frame.info banner ∷ version_frames))).messages
      []
unfolding script messages
given_banner =
    subst (λ ms. Gives script greeting ms [])
      (sym (
        polls-version no_base64 State.new [] refl refl banner refl banner-IsLine
          version_frames-IsReadable version-Reply))
      (multi_line (codes "V: 2" ∷ []) ∷ [], refl, ([], refl, refl))

version-info_example :
    (k : List OvpnMessage) × (version script 1 (stream greeting)
      ≡ (read_on (stream greeting) [] k, done (err (unexpected_response (info banner)))))
    × Gives script k (multi_line (codes "V: 2" ∷ []) ∷ []) []
unfolding script messages
version-info_example =
    version-info script no_base64 State.new [] 1 (stream greeting) greeting [] refl refl
      (omega arith) banner refl banner-IsLine version_frames-IsReadable version-Reply refl
      given_banner
