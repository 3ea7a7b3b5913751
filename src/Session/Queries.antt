-- ===== src/Session/Queries.antt =====
-- The methods of `ManagementSession` (openvpn-mgmt-codec/src/session.rs) that return what the response
-- says.
use openvpn_mgmt_codec.Prelude.{ℕ, Bool, List, Option, none, some}
use openvpn_mgmt_codec.Text.{Str}
use openvpn_mgmt_codec.Values.StreamMode.{StreamMode}
use openvpn_mgmt_codec.Values.StatusFormat.{StatusFormat}
use openvpn_mgmt_codec.Command.Types.{
  KillTarget, RemoteAction, ProxyAction, ClientDeny, RemoteEntryRange, byte_count,
}
use openvpn_mgmt_codec.Command.Types as Command
use openvpn_mgmt_codec.Message.Types.{StateEntry}
use openvpn_mgmt_codec.Responses.{LoadStats, parse_pid, parse_hold, parse_load_stats}
use openvpn_mgmt_codec.Responses.States.{parse_state_history, parse_current_state}
use openvpn_mgmt_codec.Responses.Version.{VersionInfo}
use openvpn_mgmt_codec.Responses.Version
use openvpn_mgmt_codec.Status.{StatusResponse}
use openvpn_mgmt_codec.Status.Tagged.{parse_status}
use openvpn_mgmt_codec.Status.Statistics.{ClientStatistics, parse_client_statistics}
use openvpn_mgmt_codec.Session.Await.{Transport, Async, pure, parsed, parsed_status, ◌>>=◌}
use openvpn_mgmt_codec.Session.{send_expect_success, send_expect_multi_line, send_stream_command}

-- The fuel bounds the notifications that may come before the response.
module _ {L E : Type 0} (T : Transport L E) (fuel : ℕ) where
  unfoldable pub verb : Option ℕ → Async L E Str
  verb level = send_expect_success T fuel (Command.verb level)

  unfoldable pub mute : Option ℕ → Async L E Str
  mute threshold = send_expect_success T fuel (Command.mute threshold)

  unfoldable pub pkcs11_id_count : Async L E Str
  pkcs11_id_count = send_expect_success T fuel (Command.pkcs11_id_count)

  unfoldable pub pkcs11_id_get : ℕ → Async L E Str
  pkcs11_id_get index = send_expect_success T fuel (Command.pkcs11_id_get index)

  unfoldable pub raw : Str → Async L E Str
  raw command = send_expect_success T fuel (Command.raw command)

  unfoldable pub status_raw : StatusFormat → Async L E (List Str)
  status_raw format = send_expect_multi_line T fuel (Command.status format)

  unfoldable pub help : Async L E (List Str)
  help = send_expect_multi_line T fuel (Command.help)

  unfoldable pub net : Async L E (List Str)
  net = send_expect_multi_line T fuel (Command.net)

  unfoldable pub remote_entry_count : Async L E (List Str)
  remote_entry_count = send_expect_multi_line T fuel (Command.remote_entry_count)

  unfoldable pub remote_entry_get : RemoteEntryRange → Async L E (List Str)
  remote_entry_get entries = send_expect_multi_line T fuel (Command.remote_entry_get entries)

  unfoldable pub status : StatusFormat → Async L E StatusResponse
  status format = do lines ← status_raw format; parsed_status (parse_status lines)

  unfoldable pub client_statistics : StatusFormat → Async L E ClientStatistics
  client_statistics format = do
    lines ← status_raw format
    parsed_status (parse_client_statistics lines)

  unfoldable pub state : Async L E (List StateEntry)
  state = do lines ← send_expect_multi_line T fuel Command.state; parsed (parse_state_history lines)

  unfoldable pub current_state : Async L E StateEntry
  current_state = do
    lines ← send_expect_multi_line T fuel Command.state
    parsed (parse_current_state lines)

  abbrev history : Option (List Str) → Async L E (Option (List StateEntry))
  history (some lines) = parsed (parse_state_history lines) >>= λ entries. pure (some entries)
  history none = pure none

  unfoldable pub state_stream : StreamMode → Async L E (Option (List StateEntry))
  state_stream mode = do
    lines ← send_stream_command T fuel mode (Command.state_stream mode)
    history lines

  unfoldable pub version : Async L E VersionInfo
  version = do lines ← send_expect_multi_line T fuel Command.version; parsed (Version.parse lines)

  unfoldable pub pid : Async L E ℕ
  pid = do payload ← send_expect_success T fuel Command.pid; parsed (parse_pid payload)

  unfoldable pub log : StreamMode → Async L E (Option (List Str))
  log mode = send_stream_command T fuel mode (Command.log mode)

  unfoldable pub echo : StreamMode → Async L E (Option (List Str))
  echo mode = send_stream_command T fuel mode (Command.echo mode)

  unfoldable pub hold_query : Async L E Bool
  hold_query = do
    payload ← send_expect_success T fuel Command.hold_query
    parsed (parse_hold payload)

  unfoldable pub load_stats : Async L E LoadStats
  load_stats = do
    payload ← send_expect_success T fuel Command.load_stats
    parsed (parse_load_stats payload)
