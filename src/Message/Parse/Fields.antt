-- ===== src/Message/Parse/Fields.antt =====
-- The parsers whose payload is a list of fields.
use openvpn_mgmt_codec.Prelude.{ℕ, [], Option, none, some, if◌then◌else◌}
use openvpn_mgmt_codec.Prelude.Options.{◌>>=◌, unwrap_or}
use openvpn_mgmt_codec.Prelude.Results.{Result, ok, err}
use openvpn_mgmt_codec.Text.{
  Str, codes, is_empty, strip_prefix, strip_suffix, split_once, split_once_str, splitn, next, rest,
  trim,
}
use openvpn_mgmt_codec.Text.Decimal
use openvpn_mgmt_codec.Text.Decimal.{max_u16, max_u32, max_u64}
use openvpn_mgmt_codec.Values.LogLevel.{LogLevel, parse_log_level}
use openvpn_mgmt_codec.Values.OpenVpnState.{OpenVpnState, parse_openvpn_state}
use openvpn_mgmt_codec.Values.TransportProtocol.{TransportProtocol, parse_transport_protocol}
use openvpn_mgmt_codec.Message.Types.{
  Notification, state, byte_count, byte_count_cli, log, echo, pkcs11_id_count, need_ok, need_str,
  pk_sign, remote, proxy, OvpnMessage, pkcs11_id_entry,
}

-- `parse().unwrap_or_else(|_| Unknown(text))`
abbrev pub or_unknown {ℓ} : {A : Type ℓ} → (Str → A) → Result Str A → A
or_unknown unknown (ok a) = a
or_unknown unknown (err text) = unknown text

-- `parse_field` at the unsigned type with the greatest value `max`.
abbrev pub parse_field : ℕ → Str → Option ℕ
parse_field = Decimal.parse

unfoldable pub parse_optional_port : Str → Option ℕ
parse_optional_port input =
    let trimmed = trim input in if is_empty trimmed then none else Decimal.parse max_u16 trimmed

-- A field that may be missing.
abbrev pub or_empty : Option Str → Str
or_empty o = unwrap_or o []

unfoldable pub parse_state : Str → Option Notification
parse_state payload = do
  let parts = splitn 9 b',' payload
  timestamp_str ← next parts
  timestamp ← parse_field max_u64 timestamp_str
  let parts1 = rest parts
  state_str ← next parts1
  let parts2 = rest parts1
  description ← next parts2
  let parts3 = rest parts2
  local_ip ← next parts3
  let parts4 = rest parts3
  remote_ip ← next parts4
  let parts5 = rest parts4
  let parts6 = rest parts5
  let parts7 = rest parts6
  let parts8 = rest parts7
  some (
      state (record {
        timestamp = timestamp;
        name = or_unknown OpenVpnState.unknown (parse_openvpn_state state_str);
        description = description;
        local_ip = local_ip;
        remote_ip = remote_ip;
        remote_port = parse_optional_port (or_empty (next parts5));
        local_addr = or_empty (next parts6);
        local_port = parse_optional_port (or_empty (next parts7));
        local_ipv6 = or_empty (next parts8);
      }))

unfoldable pub parse_bytecount : Str → Option Notification
parse_bytecount payload = do
  cut ← split_once b',' payload
  bytes_in ← parse_field max_u64 cut.0
  bytes_out ← parse_field max_u64 cut.1
  some (byte_count bytes_in bytes_out)

unfoldable pub parse_bytecount_cli : Str → Option Notification
parse_bytecount_cli payload = do
  let parts = splitn 3 b',' payload
  cid ← parse_field max_u64 (← next parts)
  bytes_in ← parse_field max_u64 (← next (rest parts))
  bytes_out ← parse_field max_u64 (← next (rest (rest parts)))
  some (byte_count_cli cid bytes_in bytes_out)

unfoldable pub parse_log : Str → Option Notification
parse_log payload = do
  cut ← split_once b',' payload
  timestamp ← parse_field max_u64 cut.0
  fields ← split_once b',' cut.1
  some (log timestamp (or_unknown LogLevel.unknown (parse_log_level fields.0)) fields.1)

unfoldable pub parse_echo : Str → Option Notification
parse_echo payload = do
  cut ← split_once b',' payload
  timestamp ← parse_field max_u64 cut.0
  some (echo timestamp cut.1)

unfoldable pub parse_pkcs11id_count : Str → Option Notification
parse_pkcs11id_count payload = do
  count ← parse_field max_u32 (trim payload)
  some (pkcs11_id_count count)

unfoldable pub parse_pkcs11id_entry_notif : Str → Option OvpnMessage
parse_pkcs11id_entry_notif payload = do
  quoted ← strip_prefix (codes "'") payload
  index ← split_once_str (codes "', ID:'") quoted
  id ← split_once_str (codes "', BLOB:'") index.1
  blob ← strip_suffix (codes "'") id.1
  some (pkcs11_id_entry index.0 id.0 blob)

unfoldable pub parse_need_ok : Str → Option Notification
parse_need_ok payload = do
  behind ← strip_prefix (codes "Need '") payload
  name ← split_once b'\'' behind
  msg ← split_once_str (codes "MSG:") name.1
  some (need_ok name.0 msg.1)

unfoldable pub parse_need_str : Str → Option Notification
parse_need_str payload = do
  behind ← strip_prefix (codes "Need '") payload
  name ← split_once b'\'' behind
  msg ← split_once_str (codes "MSG:") name.1
  some (need_str name.0 msg.1)

unfoldable pub parse_pk_sign : Str → Option Notification
parse_pk_sign payload = if is_empty payload then none else elim (split_once b',' payload) [
  | some (d, a) ↦ some (pk_sign d (some a))
  | none ↦ some (pk_sign payload none)
]

unfoldable pub parse_remote : Str → Option Notification
parse_remote payload = do
  let parts = splitn 3 b',' payload
  host ← next parts
  port ← parse_field max_u16 (← next (rest parts))
  proto_str ← next (rest (rest parts))
  some
      (remote host port (or_unknown TransportProtocol.unknown (parse_transport_protocol proto_str)))

unfoldable pub parse_proxy : Str → Option Notification
parse_proxy payload = do
  let parts = splitn 3 b',' payload
  index ← parse_field max_u32 (← next parts)
  pt_str ← next (rest parts)
  host ← next (rest (rest parts))
  some (proxy index (or_unknown TransportProtocol.unknown (parse_transport_protocol pt_str)) host)
