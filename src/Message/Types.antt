-- ===== src/Message/Types.antt =====
-- The messages of openvpn-mgmt-codec/src/message.rs, `StateEntry` of parsed_response.rs and
-- `UnrecognizedKind`. A `UtcTimestamp` is its number of seconds.
use openvpn_mgmt_codec.Prelude.{ℕ, Bool, List, Option}
use openvpn_mgmt_codec.Text.{Str}
use openvpn_mgmt_codec.Frame.EnvMap.{EnvMap}
use openvpn_mgmt_codec.Values.Auth.{AuthType}
use openvpn_mgmt_codec.Values.ClientEvent.{ClientEvent}
use openvpn_mgmt_codec.Values.LogLevel.{LogLevel}
use openvpn_mgmt_codec.Values.OpenVpnState.{OpenVpnState}
use openvpn_mgmt_codec.Values.TransportProtocol.{TransportProtocol}

pub record StateEntry : Type 0 where
  pub timestamp : ℕ
  pub name : OpenVpnState
  pub description : Str
  pub local_ip : Str
  pub remote_ip : Str
  pub remote_port : Option ℕ
  pub local_addr : Str
  pub local_port : Option ℕ
  pub local_ipv6 : Str

pub data PasswordNotification : Type 0 where
  need_auth need_password verification_failed : AuthType → PasswordNotification
  static_challenge : Bool → Bool → Str → PasswordNotification
  auth_token : Str → PasswordNotification
  dynamic_challenge : Str → Str → Str → Str → PasswordNotification

pub data Notification : Type 0 where
  client : ClientEvent → ℕ → Option ℕ → EnvMap → Notification
  client_address : ℕ → Str → Bool → Notification
  state : StateEntry → Notification
  byte_count : ℕ → ℕ → Notification
  byte_count_cli : ℕ → ℕ → ℕ → Notification
  log : ℕ → LogLevel → Str → Notification
  echo : ℕ → Str → Notification
  hold fatal : Str → Notification
  pkcs11_id_count : ℕ → Notification
  need_ok need_str : Str → Str → Notification
  rsa_sign : Str → Notification
  pk_sign : Str → Option Str → Notification
  info_msg need_certificate info : Str → Notification
  remote : Str → ℕ → TransportProtocol → Notification
  proxy : ℕ → TransportProtocol → Str → Notification
  password : PasswordNotification → Notification
  simple : Str → Str → Notification

pub data UnrecognizedKind : Type 0 where
  malformed_notification unexpected_line : UnrecognizedKind

pub data OvpnMessage : Type 0 where
  success error : Str → OvpnMessage
  multi_line : List Str → OvpnMessage
  pkcs11_id_entry : Str → Str → Str → OvpnMessage
  notification : Notification → OvpnMessage
  info : Str → OvpnMessage
  password_prompt : OvpnMessage
  unrecognized : Str → UnrecognizedKind → OvpnMessage
