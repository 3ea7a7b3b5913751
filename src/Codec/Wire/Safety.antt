-- ===== src/Codec/Wire/Safety.antt =====
-- No command puts a line break of its own on the wire: all arms of `encode`.
use Prim.Native.String.{String}
use openvpn_mgmt_codec.Prelude.{◌≡◌, refl, [], ◌∷◌, none, some}
use openvpn_mgmt_codec.Prelude.Results.{Result, ok, err}
use openvpn_mgmt_codec.Text.{Str, Bytes, codes, any}
use openvpn_mgmt_codec.Text.Utf8.{as_bytes}
use openvpn_mgmt_codec.Text.Decimal.{to_string}
use openvpn_mgmt_codec.Frame.Types.{EncoderMode, IoError}
use openvpn_mgmt_codec.Frame.Encoder.{wire_safe, wire_unsafe}
use openvpn_mgmt_codec.Frame.Encoder.Lines.{IsClean, any-IsClean, wire_safe-IsClean}
use openvpn_mgmt_codec.Values.StatusFormat.{v1, v2, v3, status_format_text}
use openvpn_mgmt_codec.Values.StreamMode.{stream_mode_text}
use openvpn_mgmt_codec.Values.Signal.{signal_text}
use openvpn_mgmt_codec.Values.Auth.{auth_retry_text}
use openvpn_mgmt_codec.Command.Types.{
  OvpnCommand, status, state, state_stream, version, set_version, pid, help, verb, mute, net, log,
  echo, byte_count, signal, kill, hold_query, hold_on, hold_off, hold_release, username, password,
  auth_retry, forget_passwords, challenge_response, static_challenge_response, need_ok, need_str,
  pkcs11_id_count, pkcs11_id_get, rsa_sig, client_auth, client_auth_nt, client_deny, client_kill,
  remote, proxy, load_stats, client_pending_auth, cr_response, pk_sig, env_filter,
  remote_entry_count, remote_entry_get, push_update_broad, push_update_cid, certificate,
  management_password, exit, quit, raw, raw_multi_line,
}
use openvpn_mgmt_codec.Codec.Wire.{
  Wire, one_line, block, command_wire, static_challenge_line, range_text,
}
use openvpn_mgmt_codec.Codec.Wire.Texts.{
  append-IsClean, to_string-IsClean, quoted-IsClean, command-IsClean, auth_retry_text-IsClean,
  signal_text-IsClean, status_format_text-IsClean, stream_mode_text-IsClean, range_text-IsClean,
  literal-IsClean,
}
use openvpn_mgmt_codec.Codec.Wire.Lines.{
  IsSafe, IsCleanTarget, kill_line-IsSafe, username_line-IsSafe, password_line-IsSafe,
  challenge_line-IsSafe, need_ok_line-IsSafe, need_str_line-IsSafe, client_deny_line-IsSafe,
  client_kill_line-IsSafe, pending_auth_line-IsSafe, remote_line-IsSafe, proxy_line-IsSafe,
  push_update_line-IsSafe, cr_response_line-IsSafe,
}

-- The commands whose line is made of checked fields: a `Kill` with a protocol that the source does
-- not know is one only if the protocol is clean.
abbrev pub IsChecked : OvpnCommand → Type 0
IsChecked (kill t) = IsCleanTarget t
IsChecked _ = Unit

-- What a command is written as: a refused field, a clean line, or a block with a clean header.
abbrev pub IsSafeWire : Wire → Type 0
IsSafeWire (one_line r) = IsSafe r
IsSafeWire (block header lines) = IsClean header

static_challenge_line-IsClean :
    (base64 : Bytes → Str)
    → ((b : Bytes) → IsClean (base64 b))
    → (p r : Str) → IsClean (static_challenge_line base64 p r)
unfolding static_challenge_line any wire_unsafe
static_challenge_line-IsClean base64 h p r = literal-IsClean (codes "password \"Auth\" ") _ refl (
    quoted-IsClean _ (
      literal-IsClean (codes "SCRV1:") _ refl
        (append-IsClean (base64 (as_bytes p)) _ (h _) (refl, h _))))

module _ (base64 : Bytes → Str) (h : (b : Bytes) → IsClean (base64 b)) (mode : EncoderMode) where
  checked-IsSafe : (s : Str) (field : String) → IsSafe (wire_safe s field mode)
  checked-IsSafe s field = by_result (wire_safe s field mode) refl
    where
      by_result : (r : Result IoError Str) → wire_safe s field mode ≡ r → IsSafe r
      by_result (ok x) e = wire_safe-IsClean s field mode e
      by_result (err x) e = tt

  -- For every command, in both modes, with a base64 encoder whose texts are clean, what
  -- `encode` writes is a refused field, a line free of `\n`, `\r` and `\0`, or a block whose
  -- header is. The one condition is that the protocol of a `Kill`, if it is one that the source
  -- does not know, is clean itself.
  pub command_wire-IsSafeWire :
      (command : OvpnCommand) → IsChecked command → IsSafeWire (command_wire base64 mode command)
  unfolding command_wire any wire_unsafe
  command_wire-IsSafeWire (status v1) c = any-IsClean (codes "status") refl
  command_wire-IsSafeWire (status v2) c =
      command-IsClean (codes "status") ((status_format_text v2) ∷ []) refl
        (status_format_text-IsClean v2, tt)
  command_wire-IsSafeWire (status v3) c =
      command-IsClean (codes "status") ((status_format_text v3) ∷ []) refl
        (status_format_text-IsClean v3, tt)
  command_wire-IsSafeWire state c = any-IsClean (codes "state") refl
  command_wire-IsSafeWire (state_stream m) c =
      command-IsClean (codes "state") ((stream_mode_text m) ∷ []) refl
        (stream_mode_text-IsClean m, tt)
  command_wire-IsSafeWire version c = any-IsClean (codes "version") refl
  command_wire-IsSafeWire (set_version n) c =
      command-IsClean (codes "version") ((to_string n) ∷ []) refl (to_string-IsClean n, tt)
  command_wire-IsSafeWire pid c = any-IsClean (codes "pid") refl
  command_wire-IsSafeWire help c = any-IsClean (codes "help") refl
  command_wire-IsSafeWire net c = any-IsClean (codes "net") refl
  command_wire-IsSafeWire (verb (some n)) c =
      command-IsClean (codes "verb") ((to_string n) ∷ []) refl (to_string-IsClean n, tt)
  command_wire-IsSafeWire (verb none) c = any-IsClean (codes "verb") refl
  command_wire-IsSafeWire (mute (some n)) c =
      command-IsClean (codes "mute") ((to_string n) ∷ []) refl (to_string-IsClean n, tt)
  command_wire-IsSafeWire (mute none) c = any-IsClean (codes "mute") refl
  command_wire-IsSafeWire (log m) c =
      command-IsClean (codes "log") ((stream_mode_text m) ∷ []) refl
        (stream_mode_text-IsClean m, tt)
  command_wire-IsSafeWire (echo m) c =
      command-IsClean (codes "echo") ((stream_mode_text m) ∷ []) refl
        (stream_mode_text-IsClean m, tt)
  command_wire-IsSafeWire (byte_count n) c =
      command-IsClean (codes "bytecount") ((to_string n) ∷ []) refl (to_string-IsClean n, tt)
  command_wire-IsSafeWire (signal sig) c =
      command-IsClean (codes "signal") ((signal_text sig) ∷ []) refl (signal_text-IsClean sig, tt)
  command_wire-IsSafeWire (kill target) c = kill_line-IsSafe mode target c
  command_wire-IsSafeWire hold_query c = any-IsClean (codes "hold") refl
  command_wire-IsSafeWire hold_on c = any-IsClean (codes "hold on") refl
  command_wire-IsSafeWire hold_off c = any-IsClean (codes "hold off") refl
  command_wire-IsSafeWire hold_release c = any-IsClean (codes "hold release") refl
  command_wire-IsSafeWire (username auth_type value) c = username_line-IsSafe mode auth_type value
  command_wire-IsSafeWire (password auth_type value) c = password_line-IsSafe mode auth_type value
  command_wire-IsSafeWire (auth_retry m) c =
      command-IsClean (codes "auth-retry") ((auth_retry_text m) ∷ []) refl
        (auth_retry_text-IsClean m, tt)
  command_wire-IsSafeWire forget_passwords c = any-IsClean (codes "forget-passwords") refl
  command_wire-IsSafeWire (challenge_response state_id response) c =
      challenge_line-IsSafe mode state_id response
  command_wire-IsSafeWire (static_challenge_response pw response) c =
      static_challenge_line-IsClean base64 h pw response
  command_wire-IsSafeWire (need_ok name response) c = need_ok_line-IsSafe mode name response
  command_wire-IsSafeWire (need_str name value) c = need_str_line-IsSafe mode name value
  command_wire-IsSafeWire pkcs11_id_count c = any-IsClean (codes "pkcs11-id-count") refl
  command_wire-IsSafeWire (pkcs11_id_get idx) c =
      command-IsClean (codes "pkcs11-id-get") ((to_string idx) ∷ []) refl
        (to_string-IsClean idx, tt)
  command_wire-IsSafeWire (rsa_sig base64_lines) c = any-IsClean (codes "rsa-sig") refl
  command_wire-IsSafeWire (pk_sig base64_lines) c = any-IsClean (codes "pk-sig") refl
  command_wire-IsSafeWire (env_filter level) c =
      command-IsClean (codes "env-filter") ((to_string level) ∷ []) refl
        (to_string-IsClean level, tt)
  command_wire-IsSafeWire remote_entry_count c = any-IsClean (codes "remote-entry-count") refl
  command_wire-IsSafeWire (remote_entry_get r) c =
      command-IsClean (codes "remote-entry-get") ((range_text r) ∷ []) refl
        (range_text-IsClean r, tt)
  command_wire-IsSafeWire (push_update_broad options) c = push_update_line-IsSafe mode none options
  command_wire-IsSafeWire (push_update_cid cid options) c =
      push_update_line-IsSafe mode (some cid) options
  command_wire-IsSafeWire (client_auth cid kid config_lines) c =
      command-IsClean (codes "client-auth") ((to_string cid) ∷ (to_string kid) ∷ []) refl
        (to_string-IsClean cid, (to_string-IsClean kid, tt))
  command_wire-IsSafeWire (client_auth_nt cid kid) c =
      command-IsClean (codes "client-auth-nt") ((to_string cid) ∷ (to_string kid) ∷ []) refl
        (to_string-IsClean cid, (to_string-IsClean kid, tt))
  command_wire-IsSafeWire (client_deny deny) c = client_deny_line-IsSafe mode deny
  command_wire-IsSafeWire (client_kill cid message) c = client_kill_line-IsSafe mode cid message
  command_wire-IsSafeWire load_stats c = any-IsClean (codes "load-stats") refl
  command_wire-IsSafeWire (client_pending_auth cid kid extra timeout) c =
      pending_auth_line-IsSafe mode cid kid extra timeout
  command_wire-IsSafeWire (cr_response response) c = cr_response_line-IsSafe mode response
  command_wire-IsSafeWire (certificate pem_lines) c = any-IsClean (codes "certificate") refl
  command_wire-IsSafeWire (remote action) c = remote_line-IsSafe mode action
  command_wire-IsSafeWire (proxy action) c = proxy_line-IsSafe mode action
  command_wire-IsSafeWire (management_password pw) c = checked-IsSafe pw "management password"
  command_wire-IsSafeWire exit c = any-IsClean (codes "exit") refl
  command_wire-IsSafeWire quit c = any-IsClean (codes "quit") refl
  command_wire-IsSafeWire (raw cmd) c = checked-IsSafe cmd "raw command"
  command_wire-IsSafeWire (raw_multi_line cmd) c = checked-IsSafe cmd "raw command"
