-- ===== src/Command/Types.antt =====
-- `OvpnCommand` of openvpn-mgmt-codec/src/command.rs, with the argument types of kill_target.rs,
-- remote_action.rs, proxy_action.rs and client_deny.rs. A `Redacted` value is its text.
use openvpn_mgmt_codec.Prelude.{ℕ, Bool, List, Option}
use openvpn_mgmt_codec.Text.{Str}
use openvpn_mgmt_codec.Values.Auth.{AuthType, AuthRetryMode}
use openvpn_mgmt_codec.Values.Signal.{Signal}
use openvpn_mgmt_codec.Values.StreamMode.{StreamMode}
use openvpn_mgmt_codec.Values.StatusFormat.{StatusFormat}
use openvpn_mgmt_codec.Values.NeedOk.{NeedOkResponse}
use openvpn_mgmt_codec.Values.TransportProtocol.{TransportProtocol}

pub data KillTarget : Type 0 where
  common_name : Str → KillTarget
  address : TransportProtocol → Str → ℕ → KillTarget

pub data RemoteAction : Type 0 where
  accept skip : RemoteAction
  skip_n : ℕ → RemoteAction
  modify : Str → ℕ → RemoteAction

pub data ProxyAction : Type 0 where
  no_proxy : ProxyAction
  http : Str → ℕ → Bool → ProxyAction
  socks : Str → ℕ → ProxyAction

pub record ClientDeny : Type 0 where
  pub cid : ℕ
  pub kid : ℕ
  pub reason : Str
  pub client_reason : Option Str

pub data RemoteEntryRange : Type 0 where
  single : ℕ → RemoteEntryRange
  range : ℕ → ℕ → RemoteEntryRange
  all_entries : RemoteEntryRange

pub data OvpnCommand : Type 0 where
  status : StatusFormat → OvpnCommand
  state : OvpnCommand
  state_stream : StreamMode → OvpnCommand
  version : OvpnCommand
  set_version : ℕ → OvpnCommand
  pid help : OvpnCommand
  verb mute : Option ℕ → OvpnCommand
  net : OvpnCommand
  log echo : StreamMode → OvpnCommand
  byte_count : ℕ → OvpnCommand
  signal : Signal → OvpnCommand
  kill : KillTarget → OvpnCommand
  hold_query hold_on hold_off hold_release : OvpnCommand
  username password : AuthType → Str → OvpnCommand
  auth_retry : AuthRetryMode → OvpnCommand
  forget_passwords : OvpnCommand
  challenge_response : Str → Str → OvpnCommand
  static_challenge_response : Str → Str → OvpnCommand
  need_ok : Str → NeedOkResponse → OvpnCommand
  need_str : Str → Str → OvpnCommand
  pkcs11_id_count : OvpnCommand
  pkcs11_id_get : ℕ → OvpnCommand
  rsa_sig : List Str → OvpnCommand
  client_auth : ℕ → ℕ → List Str → OvpnCommand
  client_auth_nt : ℕ → ℕ → OvpnCommand
  client_deny : ClientDeny → OvpnCommand
  client_kill : ℕ → Option Str → OvpnCommand
  remote : RemoteAction → OvpnCommand
  proxy : ProxyAction → OvpnCommand
  load_stats : OvpnCommand
  client_pending_auth : ℕ → ℕ → Str → ℕ → OvpnCommand
  cr_response : Str → OvpnCommand
  pk_sig : List Str → OvpnCommand
  env_filter : ℕ → OvpnCommand
  remote_entry_count : OvpnCommand
  remote_entry_get : RemoteEntryRange → OvpnCommand
  push_update_broad : Str → OvpnCommand
  push_update_cid : ℕ → Str → OvpnCommand
  certificate : List Str → OvpnCommand
  management_password : Str → OvpnCommand
  exit quit : OvpnCommand
  raw raw_multi_line : Str → OvpnCommand
