-- ===== src/Command/Parse.antt =====
-- `FromStr for OvpnCommand` of openvpn-mgmt-codec/src/command.rs: a command line as a command.
pub mod Arguments
pub mod Arms
pub mod Overrides
use openvpn_mgmt_codec.Prelude.{
  ℕ, Bool, true, false, ◌||◌, List, [], ◌∷◌, Option, none, some, if◌then◌else◌,
}
use openvpn_mgmt_codec.Prelude.Results.{Result, ok, err, ◌>>=◌}
use openvpn_mgmt_codec.Prelude.Options.{map, unwrap_or}
use openvpn_mgmt_codec.Text.{Str, codes, str_eq, is_empty, is_whitespace, trim, split_once_by}
use openvpn_mgmt_codec.Text.Decimal.{max_u8, max_u32, parse}
use openvpn_mgmt_codec.Values.StatusFormat.{v1, v2, v3}
use openvpn_mgmt_codec.Values.StreamMode.{parse_stream_mode}
use openvpn_mgmt_codec.Values.Signal.{parse_signal}
use openvpn_mgmt_codec.Values.Auth.{parse_auth_retry}
use openvpn_mgmt_codec.Command.Types.{
  OvpnCommand, status, state, state_stream, version, set_version, pid, help, net, verb, mute, log,
  echo, byte_count, signal, hold_query, hold_on, hold_off, hold_release, auth_retry,
  forget_passwords, pkcs11_id_count, pkcs11_id_get, load_stats, remote_entry_count, exit, quit, raw,
  raw_multi_line,
}
use openvpn_mgmt_codec.Command.Parse.Arguments.{
  invalid_choice, invalid_number, missing_args, stream_mode, auth_retry_mode, ok_or, map_err,
  parse_number,
}
use openvpn_mgmt_codec.Command.Parse.Arguments
use openvpn_mgmt_codec.Command.Parse.Arms.{
  Parsed, parse_kill, parse_username, parse_password, parse_needok, parse_needstr,
  parse_client_auth, parse_client_auth_nt, parse_client_deny, parse_client_kill,
}
use openvpn_mgmt_codec.Command.Parse.Overrides.{
  parse_remote, parse_proxy, parse_env_filter, parse_remote_entry_get, parse_push_update_broad,
  parse_push_update_cid, parse_client_pending_auth, parse_cr_response,
}

unfoldable pub parse_version_command : Str → Parsed
parse_version_command args = if is_empty args then ok version else (do
  n ←
      ok_or (parse max_u32 args)
        (invalid_choice "version number" args "expected a positive integer (e.g. version 2)")
  ok (set_version n))

unfoldable pub parse_status : Str → Parsed
parse_status args =
    if is_empty args || str_eq args (codes "1")
    then ok (status v1)
    else if str_eq args (codes "2")
    then ok (status v2)
    else if str_eq args (codes "3")
    then ok (status v3)
    else err (invalid_choice "status format" args "use 1, 2, or 3")

unfoldable pub parse_state_command : Str → Parsed
parse_state_command args =
    if is_empty args
    then ok state
    else (do m ← map_err (parse_stream_mode args) stream_mode; ok (state_stream m))

-- `verb` and `mute`: without an argument, a query.
unfoldable pub parse_optional :
    (Option ℕ → OvpnCommand) → ℕ → Prim.Native.String.String → Str → Parsed
parse_optional command limit field args =
    if is_empty args
    then ok (command none)
    else (do n ← parse_number limit field args; ok (command (some n)))

unfoldable pub parse_hold_command : Str → Parsed
parse_hold_command args =
    if is_empty args
    then ok hold_query
    else if str_eq args (codes "on")
    then ok hold_on
    else if str_eq args (codes "off")
    then ok hold_off
    else if str_eq args (codes "release")
    then ok hold_release
    else err (invalid_choice "hold argument" args "use on, off, or release")

unfoldable pub parse_raw_ml : Str → Parsed
parse_raw_ml args =
    if is_empty args then err (missing_args "usage: raw-ml <command>") else ok (raw_multi_line args)

-- The `match cmd`; `line` is the whole trimmed line.
unfoldable pub parse_command : Str → Str → Str → Parsed
parse_command line cmd args =
    if str_eq cmd (codes "version")
    then parse_version_command args
    else if str_eq cmd (codes "pid")
    then ok pid
    else if str_eq cmd (codes "help")
    then ok help
    else if str_eq cmd (codes "net")
    then ok net
    else if str_eq cmd (codes "load-stats")
    then ok load_stats
    else if str_eq cmd (codes "status")
    then parse_status args
    else if str_eq cmd (codes "state")
    then parse_state_command args
    else if str_eq cmd (codes "log")
    then (do m ← map_err (parse_stream_mode args) stream_mode; ok (log m))
    else if str_eq cmd (codes "echo")
    then (do m ← map_err (parse_stream_mode args) stream_mode; ok (echo m))
    else if str_eq cmd (codes "verb")
    then parse_optional verb max_u8 "verbosity" args
    else if str_eq cmd (codes "mute")
    then parse_optional mute max_u32 "mute threshold" args
    else if str_eq cmd (codes "bytecount")
    then (do n ← parse_number max_u32 "bytecount interval" args; ok (byte_count n))
    else if str_eq cmd (codes "signal")
    then (do s ← map_err (parse_signal args) Arguments.signal; ok (signal s))
    else if str_eq cmd (codes "kill")
    then parse_kill args
    else if str_eq cmd (codes "hold")
    then parse_hold_command args
    else if str_eq cmd (codes "username")
    then parse_username args
    else if str_eq cmd (codes "password")
    then parse_password args
    else if str_eq cmd (codes "auth-retry")
    then (do m ← map_err (parse_auth_retry args) auth_retry_mode; ok (auth_retry m))
    else if str_eq cmd (codes "forget-passwords")
    then ok forget_passwords
    else if str_eq cmd (codes "needok")
    then parse_needok args
    else if str_eq cmd (codes "needstr")
    then parse_needstr args
    else if str_eq cmd (codes "pkcs11-id-count")
    then ok pkcs11_id_count
    else if str_eq cmd (codes "pkcs11-id-get")
    then (do n ← parse_number max_u32 "pkcs11-id-get index" args; ok (pkcs11_id_get n))
    else if str_eq cmd (codes "client-auth")
    then parse_client_auth args
    else if str_eq cmd (codes "client-auth-nt")
    then parse_client_auth_nt args
    else if str_eq cmd (codes "client-deny")
    then parse_client_deny args
    else if str_eq cmd (codes "client-kill")
    then parse_client_kill args
    else if str_eq cmd (codes "remote")
    then parse_remote args
    else if str_eq cmd (codes "proxy")
    then parse_proxy args
    else if str_eq cmd (codes "env-filter")
    then parse_env_filter args
    else if str_eq cmd (codes "remote-entry-count")
    then ok remote_entry_count
    else if str_eq cmd (codes "remote-entry-get")
    then parse_remote_entry_get args
    else if str_eq cmd (codes "push-update-broad")
    then parse_push_update_broad args
    else if str_eq cmd (codes "push-update-cid")
    then parse_push_update_cid args
    else if str_eq cmd (codes "client-pending-auth")
    then parse_client_pending_auth args
    else if str_eq cmd (codes "cr-response")
    then parse_cr_response args
    else if str_eq cmd (codes "raw-ml")
    then parse_raw_ml args
    else if str_eq cmd (codes "exit")
    then ok exit
    else if str_eq cmd (codes "quit")
    then ok quit
    else ok (raw line)

unfoldable pub from_str : Str → Parsed
from_str input =
    let line = trim input in
    let cut : Str × Str =
      unwrap_or (map (λ (c : Str × Str). (c.0, trim c.1)) (split_once_by is_whitespace line))
        (line, []) in
    parse_command line cut.0 cut.1
