-- ===== src/Message/Parse/Password.antt =====
-- `parse_password`, `parse_auth_type`, and the dispatch of notifications to their parsers.
use Prim.Native.Nat.{bit_and}
use openvpn_mgmt_codec.Prelude.{ℕ, false, not, [], Option, none, some, ◌==◌, if◌then◌else◌}
use openvpn_mgmt_codec.Prelude.Options.{◌>>=◌, unwrap_or}
use openvpn_mgmt_codec.Text.{
  Str, codes, str_eq, strip_prefix, strip_suffix, starts_with, split_once, split_once_str, splitn,
  next, rest, trim_start,
}
use openvpn_mgmt_codec.Text.Decimal.{max_u32, max_u64}
use openvpn_mgmt_codec.Frame.EnvMap.{EnvMap}
use openvpn_mgmt_codec.Values.Auth.{AuthType, parse_auth_type_text}
use openvpn_mgmt_codec.Values.Auth
use openvpn_mgmt_codec.Values.ClientEvent.{ClientEvent, parse_client_event}
use openvpn_mgmt_codec.Message.Types.{
  PasswordNotification, need_auth, need_password, verification_failed, static_challenge, auth_token,
  dynamic_challenge, Notification, client, client_address, hold, fatal, rsa_sign, info_msg,
  need_certificate, info, password, simple, OvpnMessage, notification,
}
use openvpn_mgmt_codec.Message.Parse.Fields.{
  or_unknown, or_empty, parse_field, parse_state, parse_bytecount, parse_bytecount_cli, parse_log,
  parse_echo, parse_pkcs11id_count, parse_pkcs11id_entry_notif, parse_need_ok, parse_need_str,
  parse_pk_sign, parse_remote, parse_proxy,
}

unfoldable pub parse_auth_type : Str → AuthType
parse_auth_type s = or_unknown Auth.unknown (parse_auth_type_text s)

-- `CRV1:flags:state_id:user_b64:challenge']`, behind `CRV1:`
unfoldable pub parse_crv1 : Str → Option PasswordNotification
parse_crv1 crv1_part = do
  crv1_data ← strip_suffix (codes "']") crv1_part
  let parts = splitn 4 b':' crv1_data
  flags ← next parts
  state_id ← next (rest parts)
  username_b64 ← next (rest (rest parts))
  challenge ← next (rest (rest (rest parts)))
  some (dynamic_challenge flags state_id username_b64 challenge)

-- Behind `Verification Failed: '`. The code is that of a release build: the assertion of debug
-- builds that `auth_part` is `Auth`, which panics on another name, is not in it.
unfoldable pub parse_verification_failed : Str → Option PasswordNotification
parse_verification_failed behind = elim (split_once_str (codes "' ['CRV1:") behind) [
  | some (auth_part, crv1_part) ↦ parse_crv1 crv1_part
  | none ↦ do
    auth_type ← strip_suffix (codes "'") behind
    some (verification_failed (parse_auth_type auth_type))
]

-- Behind `SC:`: bit 0 of the flag is ECHO, bit 1 is the response format.
unfoldable pub parse_static_challenge : Str → Option PasswordNotification
parse_static_challenge sc = do
  cut ← split_once b',' sc
  flags ← parse_field max_u32 cut.0
  some (static_challenge (not (bit_and flags 1 == 0)) (not (bit_and flags 2 == 0)) cut.1)

-- Behind `Need '`.
unfoldable pub parse_need : Str → Option PasswordNotification
parse_need behind = do
  cut ← split_once b'\'' behind
  let auth_type_str = cut.0
  let wanted = trim_start cut.1
  elim (strip_prefix (codes "username/password") wanted) [
    | some after_up ↦ elim (strip_prefix (codes "SC:") (trim_start after_up)) [
      | some sc ↦ parse_static_challenge sc
      | none ↦ some (need_auth (parse_auth_type auth_type_str))
    ]
    | none ↦
        if starts_with (codes "password") wanted
        then some (need_password (parse_auth_type auth_type_str))
        else none
  ]

unfoldable pub parse_password_notification : Str → Option PasswordNotification
parse_password_notification payload = elim (strip_prefix (codes "Auth-Token:") payload) [
  | some token ↦ some (auth_token token)
  | none ↦ elim (strip_prefix (codes "Verification Failed: '") payload) [
    | some behind ↦ parse_verification_failed behind
    | none ↦ do behind ← strip_prefix (codes "Need '") payload; parse_need behind
  ]
]

abbrev pub parse_password : Str → Option Notification
parse_password payload = do n ← parse_password_notification payload; some (password n)

-- `>CLIENT:ADDRESS,{cid},{addr},{primary}`, and any other single-line `>CLIENT:`.
unfoldable pub parse_client_line : Str → Notification
parse_client_line payload =
    let cut = unwrap_or (split_once b',' payload) (payload, []) in
    let parts = splitn 3 b',' cut.1 in
    if str_eq cut.0 (codes "ADDRESS")
    then client_address (unwrap_or (do field ← next parts; parse_field max_u64 field) 0)
        (or_empty (next (rest parts)))
        (elim (next (rest (rest parts))) [ none ↦ false | some field ↦ str_eq field (codes "1") ])
    else simple (codes "CLIENT") payload

-- The `match kind` of `parse_notification_from_frame`, without `PKCS11ID-ENTRY`.
unfoldable pub parse_kind : Str → Str → Option Notification
parse_kind kind payload =
    if str_eq kind (codes "STATE")
    then parse_state payload
    else if str_eq kind (codes "BYTECOUNT")
    then parse_bytecount payload
    else if str_eq kind (codes "BYTECOUNT_CLI")
    then parse_bytecount_cli payload
    else if str_eq kind (codes "LOG")
    then parse_log payload
    else if str_eq kind (codes "ECHO")
    then parse_echo payload
    else if str_eq kind (codes "HOLD")
    then some (hold payload)
    else if str_eq kind (codes "FATAL")
    then some (fatal payload)
    else if str_eq kind (codes "PKCS11ID-COUNT")
    then parse_pkcs11id_count payload
    else if str_eq kind (codes "NEED-OK")
    then parse_need_ok payload
    else if str_eq kind (codes "NEED-STR")
    then parse_need_str payload
    else if str_eq kind (codes "RSA_SIGN")
    then some (rsa_sign payload)
    else if str_eq kind (codes "PK_SIGN")
    then parse_pk_sign payload
    else if str_eq kind (codes "INFOMSG")
    then some (info_msg payload)
    else if str_eq kind (codes "NEED-CERTIFICATE")
    then some (need_certificate payload)
    else if str_eq kind (codes "REMOTE")
    then parse_remote payload
    else if str_eq kind (codes "PROXY")
    then parse_proxy payload
    else if str_eq kind (codes "PASSWORD")
    then parse_password payload
    else none

unfoldable pub parse_notification_from_frame : Str → Str → OvpnMessage
parse_notification_from_frame kind payload =
    if str_eq kind (codes "CLIENT")
    then notification (parse_client_line payload)
    else if str_eq kind (codes "INFO")
    then notification (info payload)
    else if str_eq kind (codes "PKCS11ID-ENTRY")
    then unwrap_or (parse_pkcs11id_entry_notif payload) (notification (simple kind payload))
    else notification (unwrap_or (parse_kind kind payload) (simple kind payload))

unfoldable pub parse_client_env : Str → Str → EnvMap → OvpnMessage
parse_client_env event args env =
    let id_parts = splitn 3 b',' args in
    let cid = unwrap_or (do field ← next id_parts; parse_field max_u64 field) 0 in
    let kid : Option ℕ = (do field ← next (rest id_parts); parse_field max_u64 field) in
    let parsed_event =
      if str_eq event (codes "CR_RESPONSE")
      then ClientEvent.cr_response (or_empty (next (rest (rest id_parts))))
      else or_unknown ClientEvent.unknown (parse_client_event event) in
    notification (client parsed_event cid kid env)
