-- ===== src/Codec/Wire.antt =====
-- What each command looks like on the wire: the arms of `OvpnCodec::encode`. `base64` is the
-- encoder of the `base64` crate, from bytes to text.
pub mod Texts
pub mod Lines
pub mod Safety
use Prim.Native.String.{String}
use openvpn_mgmt_codec.Prelude.{
  ℕ, Bool, true, false, List, [], ◌∷◌, ◌++◌, Option, none, some, if◌then◌else◌,
}
use openvpn_mgmt_codec.Prelude.Results.{Result, ok, err, ◌>>=◌}
use openvpn_mgmt_codec.Text.{Str, Bytes, codes}
use openvpn_mgmt_codec.Text.Decimal.{to_string}
use openvpn_mgmt_codec.Text.Utf8.{as_bytes}
use openvpn_mgmt_codec.Frame.Types.{EncoderMode, IoError}
use openvpn_mgmt_codec.Frame.Encoder.{wire_safe, escape, quote}
use openvpn_mgmt_codec.Values.Auth.{AuthType, auth_type_text, auth_retry_text}
use openvpn_mgmt_codec.Values.Signal.{signal_text}
use openvpn_mgmt_codec.Values.StreamMode.{StreamMode, stream_mode_text}
use openvpn_mgmt_codec.Values.StatusFormat.{v1, v2, v3, status_format_text}
use openvpn_mgmt_codec.Values.NeedOk.{NeedOkResponse, need_ok_text}
use openvpn_mgmt_codec.Values.TransportProtocol.{transport_protocol_text}
use openvpn_mgmt_codec.Command.Types.{
  KillTarget, common_name, address, RemoteAction, accept, skip, skip_n, modify, ProxyAction,
  no_proxy, http, socks, ClientDeny, RemoteEntryRange, single, range, all_entries, OvpnCommand,
  status, state, state_stream, version, set_version, pid, help, verb, mute, net, log, echo,
  byte_count, signal, kill, hold_query, hold_on, hold_off, hold_release, username, password,
  auth_retry, forget_passwords, challenge_response, static_challenge_response, need_ok, need_str,
  pkcs11_id_count, pkcs11_id_get, rsa_sig, client_auth, client_auth_nt, client_deny, client_kill,
  remote, proxy, load_stats, client_pending_auth, cr_response, pk_sig, env_filter,
  remote_entry_count, remote_entry_get, push_update_broad, push_update_cid, certificate,
  management_password, exit, quit, raw, raw_multi_line,
}

-- One line, or the refusal of one of its fields; or a block with its header and body.
pub data Wire : Type 0 where
  one_line : Result IoError Str → Wire
  block : Str → List Str → Wire

abbrev fixed : Str → Wire
fixed s = one_line (ok s)

-- The words of a line, with one space between them.
unfoldable pub words : List Str → Str
words [] = []
words (w ∷ []) = w
words (w ∷ v ∷ ws) = w ++ (b' ' ∷ words (v ∷ ws))

unfoldable pub quoted : Str → Str
quoted s = quote (escape s)

module _ (mode : EncoderMode) where
  unfoldable pub kill_line : KillTarget → Result IoError Str
  kill_line (common_name name) = do safe ← wire_safe name "kill CN" mode; ok (codes "kill " ++ safe)
  kill_line (address protocol ip port) = do
    safe_ip ← wire_safe ip "kill address ip" mode
    ok (
        codes "kill "
        ++ (transport_protocol_text protocol ++ (b':' ∷ (safe_ip ++ (b':' ∷ to_string port)))))

  unfoldable pub username_line : AuthType → Str → Result IoError Str
  username_line auth_type value = do
    auth ← wire_safe (auth_type_text auth_type) "username auth_type" mode
    val ← wire_safe value "username value" mode
    ok (words (codes "username" ∷ quoted auth ∷ quoted val ∷ []))

  unfoldable pub password_line : AuthType → Str → Result IoError Str
  password_line auth_type value = do
    auth ← wire_safe (auth_type_text auth_type) "password auth_type" mode
    val ← wire_safe value "password value" mode
    ok (words (codes "password" ∷ quoted auth ∷ quoted val ∷ []))

  unfoldable pub challenge_line : Str → Str → Result IoError Str
  challenge_line state_id response = do
    sid ← wire_safe state_id "challenge-response state_id" mode
    resp ← wire_safe response "challenge-response response" mode
    let value = codes "CRV1::" ++ (sid ++ (codes "::" ++ resp))
    ok (codes "password \"Auth\" " ++ quoted value)

  unfoldable pub need_ok_line : Str → NeedOkResponse → Result IoError Str
  need_ok_line name response = do
    safe ← wire_safe name "needok name" mode
    ok (words (codes "needok" ∷ safe ∷ need_ok_text response ∷ []))

  unfoldable pub need_str_line : Str → Str → Result IoError Str
  need_str_line name value = do
    safe ← wire_safe name "needstr name" mode
    val ← wire_safe value "needstr value" mode
    ok (words (codes "needstr" ∷ safe ∷ quoted val ∷ []))

  unfoldable pub client_deny_line : ClientDeny → Result IoError Str
  client_deny_line deny = do
    reason ← wire_safe deny.reason "client-deny reason" mode
    let head = codes "client-deny" ∷ to_string deny.cid ∷ to_string deny.kid ∷ quoted reason ∷ []
    elim deny.client_reason [
      | some client_reason ↦ do
        options ← wire_safe client_reason "client-deny client_reason" mode
        ok (words (head ++ (quoted options ∷ [])))
      | none ↦ ok (words head)
    ]

  unfoldable pub client_kill_line : ℕ → Option Str → Result IoError Str
  client_kill_line cid (some msg) = do
    safe ← wire_safe msg "client-kill message" mode
    ok (words (codes "client-kill" ∷ to_string cid ∷ safe ∷ []))
  client_kill_line cid none = ok (words (codes "client-kill" ∷ to_string cid ∷ []))

  unfoldable pub pending_auth_line : ℕ → ℕ → Str → ℕ → Result IoError Str
  pending_auth_line cid kid extra timeout = do
    safe ← wire_safe extra "client-pending-auth extra" mode
    ok (
        words (
          codes "client-pending-auth"
          ∷ to_string cid
          ∷ to_string kid
          ∷ safe
          ∷ to_string timeout
          ∷ []))

  unfoldable pub remote_line : RemoteAction → Result IoError Str
  remote_line accept = ok (codes "remote ACCEPT")
  remote_line skip = ok (codes "remote SKIP")
  remote_line (skip_n n) = ok (words (codes "remote SKIP" ∷ to_string n ∷ []))
  remote_line (modify host port) = do
    safe ← wire_safe host "remote MOD host" mode
    ok (words (codes "remote MOD" ∷ safe ∷ to_string port ∷ []))

  unfoldable pub proxy_line : ProxyAction → Result IoError Str
  proxy_line no_proxy = ok (codes "proxy NONE")
  proxy_line (http host port non_cleartext_only) = do
    safe ← wire_safe host "proxy HTTP host" mode
    let nct = if non_cleartext_only then codes " nct" else []
    ok (words (codes "proxy HTTP" ∷ safe ∷ (to_string port ++ nct) ∷ []))
  proxy_line (socks host port) = do
    safe ← wire_safe host "proxy SOCKS host" mode
    ok (words (codes "proxy SOCKS" ∷ safe ∷ to_string port ∷ []))

  unfoldable pub push_update_line : Option ℕ → Str → Result IoError Str
  push_update_line none options = do
    safe ← wire_safe options "push-update-broad options" mode
    ok (words (codes "push-update-broad" ∷ quoted safe ∷ []))
  push_update_line (some cid) options = do
    safe ← wire_safe options "push-update-cid options" mode
    ok (words (codes "push-update-cid" ∷ to_string cid ∷ quoted safe ∷ []))

  unfoldable pub cr_response_line : Str → Result IoError Str
  cr_response_line response = do
    safe ← wire_safe response "cr-response" mode
    ok (words (codes "cr-response" ∷ safe ∷ []))

unfoldable pub static_challenge_line : (Bytes → Str) → Str → Str → Str
static_challenge_line base64 pw response =
    let password_b64 = base64 (as_bytes pw) in
    let response_b64 = base64 (as_bytes response) in
    codes "password \"Auth\" " ++ quoted (codes "SCRV1:" ++ (password_b64 ++ (b':' ∷ response_b64)))

-- `Display` of `RemoteEntryRange`.
unfoldable pub range_text : RemoteEntryRange → Str
range_text (single index) = to_string index
range_text (range from end) = words (to_string from ∷ to_string end ∷ [])
range_text all_entries = codes "all"

unfoldable pub command_wire : (Bytes → Str) → EncoderMode → OvpnCommand → Wire
command_wire base64 mode (status v1) = fixed (codes "status")
command_wire base64 mode (status v2) = fixed (words (codes "status" ∷ status_format_text v2 ∷ []))
command_wire base64 mode (status v3) = fixed (words (codes "status" ∷ status_format_text v3 ∷ []))
command_wire base64 mode state = fixed (codes "state")
command_wire base64 mode (state_stream m) = fixed (words (codes "state" ∷ stream_mode_text m ∷ []))
command_wire base64 mode version = fixed (codes "version")
command_wire base64 mode (set_version n) = fixed (words (codes "version" ∷ to_string n ∷ []))
command_wire base64 mode pid = fixed (codes "pid")
command_wire base64 mode help = fixed (codes "help")
command_wire base64 mode net = fixed (codes "net")
command_wire base64 mode (verb (some n)) = fixed (words (codes "verb" ∷ to_string n ∷ []))
command_wire base64 mode (verb none) = fixed (codes "verb")
command_wire base64 mode (mute (some n)) = fixed (words (codes "mute" ∷ to_string n ∷ []))
command_wire base64 mode (mute none) = fixed (codes "mute")
command_wire base64 mode (log m) = fixed (words (codes "log" ∷ stream_mode_text m ∷ []))
command_wire base64 mode (echo m) = fixed (words (codes "echo" ∷ stream_mode_text m ∷ []))
command_wire base64 mode (byte_count n) = fixed (words (codes "bytecount" ∷ to_string n ∷ []))
command_wire base64 mode (signal sig) = fixed (words (codes "signal" ∷ signal_text sig ∷ []))
command_wire base64 mode (kill target) = one_line (kill_line mode target)
command_wire base64 mode hold_query = fixed (codes "hold")
command_wire base64 mode hold_on = fixed (codes "hold on")
command_wire base64 mode hold_off = fixed (codes "hold off")
command_wire base64 mode hold_release = fixed (codes "hold release")
command_wire base64 mode (username auth_type value) = one_line (username_line mode auth_type value)
command_wire base64 mode (password auth_type value) = one_line (password_line mode auth_type value)
command_wire base64 mode (auth_retry m) =
    fixed (words (codes "auth-retry" ∷ auth_retry_text m ∷ []))
command_wire base64 mode forget_passwords = fixed (codes "forget-passwords")
command_wire base64 mode (challenge_response state_id response) =
    one_line (challenge_line mode state_id response)
command_wire base64 mode (static_challenge_response pw response) =
    fixed (static_challenge_line base64 pw response)
command_wire base64 mode (need_ok name response) = one_line (need_ok_line mode name response)
command_wire base64 mode (need_str name value) = one_line (need_str_line mode name value)
command_wire base64 mode pkcs11_id_count = fixed (codes "pkcs11-id-count")
command_wire base64 mode (pkcs11_id_get idx) =
    fixed (words (codes "pkcs11-id-get" ∷ to_string idx ∷ []))
command_wire base64 mode (rsa_sig base64_lines) = block (codes "rsa-sig") base64_lines
command_wire base64 mode (pk_sig base64_lines) = block (codes "pk-sig") base64_lines
command_wire base64 mode (env_filter level) =
    fixed (words (codes "env-filter" ∷ to_string level ∷ []))
command_wire base64 mode remote_entry_count = fixed (codes "remote-entry-count")
command_wire base64 mode (remote_entry_get r) =
    fixed (words (codes "remote-entry-get" ∷ range_text r ∷ []))
command_wire base64 mode (push_update_broad options) = one_line (push_update_line mode none options)
command_wire base64 mode (push_update_cid cid options) =
    one_line (push_update_line mode (some cid) options)
command_wire base64 mode (client_auth cid kid config_lines) =
    block (words (codes "client-auth" ∷ to_string cid ∷ to_string kid ∷ [])) config_lines
command_wire base64 mode (client_auth_nt cid kid) =
    fixed (words (codes "client-auth-nt" ∷ to_string cid ∷ to_string kid ∷ []))
command_wire base64 mode (client_deny deny) = one_line (client_deny_line mode deny)
command_wire base64 mode (client_kill cid message) = one_line (client_kill_line mode cid message)
command_wire base64 mode load_stats = fixed (codes "load-stats")
command_wire base64 mode (client_pending_auth cid kid extra timeout) =
    one_line (pending_auth_line mode cid kid extra timeout)
command_wire base64 mode (cr_response response) = one_line (cr_response_line mode response)
command_wire base64 mode (certificate pem_lines) = block (codes "certificate") pem_lines
command_wire base64 mode (remote action) = one_line (remote_line mode action)
command_wire base64 mode (proxy action) = one_line (proxy_line mode action)
command_wire base64 mode (management_password pw) =
    one_line (wire_safe pw "management password" mode)
command_wire base64 mode exit = fixed (codes "exit")
command_wire base64 mode quit = fixed (codes "quit")
command_wire base64 mode (raw cmd) = one_line (wire_safe cmd "raw command" mode)
command_wire base64 mode (raw_multi_line cmd) = one_line (wire_safe cmd "raw command" mode)
