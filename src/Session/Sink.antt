-- ===== src/Session/Sink.antt =====
-- `ManagementSink` of openvpn-mgmt-codec/src/split.rs: the methods of the write half, which send a
-- command and do not wait.
use openvpn_mgmt_codec.Prelude.{ℕ, List, Option}
use openvpn_mgmt_codec.Prelude.Results.{Result}
use openvpn_mgmt_codec.Text.{Str}
use openvpn_mgmt_codec.Values.Auth.{AuthType, AuthRetryMode}
use openvpn_mgmt_codec.Values.Signal.{Signal}
use openvpn_mgmt_codec.Values.StreamMode.{StreamMode}
use openvpn_mgmt_codec.Values.StatusFormat.{StatusFormat}
use openvpn_mgmt_codec.Values.NeedOk.{NeedOkResponse}
use openvpn_mgmt_codec.Command.Types.{
  KillTarget, RemoteAction, ProxyAction, ClientDeny, RemoteEntryRange, byte_count,
}
use openvpn_mgmt_codec.Command.Types as Command
use openvpn_mgmt_codec.Session.Await.{Transport}

-- A call on the write half.
abbrev pub Sends : Type 0 → Type 0 → Type 0
Sends L E = L → L × Result E (Unit {0})

module _ {L E : Type 0} (T : Transport L E) where
  open T use {send}

  unfoldable pub status : StatusFormat → Sends L E
  status format framed = send framed (Command.status format)

  unfoldable pub state : Sends L E
  state framed = send framed (Command.state)

  unfoldable pub state_stream : StreamMode → Sends L E
  state_stream mode framed = send framed (Command.state_stream mode)

  unfoldable pub version : Sends L E
  version framed = send framed (Command.version)

  unfoldable pub set_version : ℕ → Sends L E
  set_version number framed = send framed (Command.set_version number)

  unfoldable pub pid : Sends L E
  pid framed = send framed (Command.pid)

  unfoldable pub help : Sends L E
  help framed = send framed (Command.help)

  unfoldable pub verb : Option ℕ → Sends L E
  verb level framed = send framed (Command.verb level)

  unfoldable pub mute : Option ℕ → Sends L E
  mute threshold framed = send framed (Command.mute threshold)

  unfoldable pub net : Sends L E
  net framed = send framed (Command.net)

  unfoldable pub log : StreamMode → Sends L E
  log mode framed = send framed (Command.log mode)

  unfoldable pub echo : StreamMode → Sends L E
  echo mode framed = send framed (Command.echo mode)

  unfoldable pub bytecount : ℕ → Sends L E
  bytecount interval framed = send framed (byte_count interval)

  unfoldable pub signal : Signal → Sends L E
  signal value framed = send framed (Command.signal value)

  unfoldable pub kill : KillTarget → Sends L E
  kill target framed = send framed (Command.kill target)

  unfoldable pub hold_query : Sends L E
  hold_query framed = send framed (Command.hold_query)

  unfoldable pub hold_on : Sends L E
  hold_on framed = send framed (Command.hold_on)

  unfoldable pub hold_off : Sends L E
  hold_off framed = send framed (Command.hold_off)

  unfoldable pub hold_release : Sends L E
  hold_release framed = send framed (Command.hold_release)

  unfoldable pub username : AuthType → Str → Sends L E
  username auth_type value framed = send framed (Command.username auth_type value)

  unfoldable pub password : AuthType → Str → Sends L E
  password auth_type value framed = send framed (Command.password auth_type value)

  unfoldable pub auth_retry : AuthRetryMode → Sends L E
  auth_retry mode framed = send framed (Command.auth_retry mode)

  unfoldable pub forget_passwords : Sends L E
  forget_passwords framed = send framed (Command.forget_passwords)

  unfoldable pub challenge_response : Str → Str → Sends L E
  challenge_response state_id answer framed =
      send framed (Command.challenge_response state_id answer)

  unfoldable pub static_challenge_response : Str → Str → Sends L E
  static_challenge_response secret answer framed =
      send framed (Command.static_challenge_response secret answer)

  unfoldable pub cr_response : Str → Sends L E
  cr_response answer framed = send framed (Command.cr_response answer)

  unfoldable pub need_ok : Str → NeedOkResponse → Sends L E
  need_ok name answer framed = send framed (Command.need_ok name answer)

  unfoldable pub need_str : Str → Str → Sends L E
  need_str name value framed = send framed (Command.need_str name value)

  unfoldable pub pkcs11_id_count : Sends L E
  pkcs11_id_count framed = send framed (Command.pkcs11_id_count)

  unfoldable pub pkcs11_id_get : ℕ → Sends L E
  pkcs11_id_get index framed = send framed (Command.pkcs11_id_get index)

  unfoldable pub rsa_sig : List Str → Sends L E
  rsa_sig base64_lines framed = send framed (Command.rsa_sig base64_lines)

  unfoldable pub pk_sig : List Str → Sends L E
  pk_sig base64_lines framed = send framed (Command.pk_sig base64_lines)

  unfoldable pub certificate : List Str → Sends L E
  certificate pem_lines framed = send framed (Command.certificate pem_lines)

  unfoldable pub client_auth : ℕ → ℕ → List Str → Sends L E
  client_auth cid kid config_lines framed = send framed (Command.client_auth cid kid config_lines)

  unfoldable pub client_auth_nt : ℕ → ℕ → Sends L E
  client_auth_nt cid kid framed = send framed (Command.client_auth_nt cid kid)

  unfoldable pub client_deny : ClientDeny → Sends L E
  client_deny deny framed = send framed (Command.client_deny deny)

  unfoldable pub client_kill : ℕ → Option Str → Sends L E
  client_kill cid message framed = send framed (Command.client_kill cid message)

  unfoldable pub client_pending_auth : ℕ → ℕ → Str → ℕ → Sends L E
  client_pending_auth cid kid extra timeout framed =
      send framed (Command.client_pending_auth cid kid extra timeout)

  unfoldable pub remote : RemoteAction → Sends L E
  remote action framed = send framed (Command.remote action)

  unfoldable pub proxy : ProxyAction → Sends L E
  proxy action framed = send framed (Command.proxy action)

  unfoldable pub load_stats : Sends L E
  load_stats framed = send framed (Command.load_stats)

  unfoldable pub env_filter : ℕ → Sends L E
  env_filter level framed = send framed (Command.env_filter level)

  unfoldable pub remote_entry_count : Sends L E
  remote_entry_count framed = send framed (Command.remote_entry_count)

  unfoldable pub remote_entry_get : RemoteEntryRange → Sends L E
  remote_entry_get entries framed = send framed (Command.remote_entry_get entries)

  unfoldable pub management_password : Str → Sends L E
  management_password value framed = send framed (Command.management_password value)

  unfoldable pub exit : Sends L E
  exit framed = send framed (Command.exit)
