-- ===== src/Session/Methods.antt =====
-- The methods of `ManagementSession` (openvpn-mgmt-codec/src/session.rs) whose command is acknowledged by
-- `SUCCESS:`; the other methods are in Session/Queries.
use openvpn_mgmt_codec.Prelude.{ℕ, List, Option, ltb, if◌then◌else◌}
use openvpn_mgmt_codec.Text.{Str}
use openvpn_mgmt_codec.Values.Auth.{AuthType, AuthRetryMode}
use openvpn_mgmt_codec.Values.Signal.{Signal}
use openvpn_mgmt_codec.Values.NeedOk.{NeedOkResponse}
use openvpn_mgmt_codec.Command.Types.{
  KillTarget, RemoteAction, ProxyAction, ClientDeny, RemoteEntryRange, byte_count,
}
use openvpn_mgmt_codec.Command.Types as Command
use openvpn_mgmt_codec.Session.Await.{Transport, Async, pure, ◌>>◌}
use openvpn_mgmt_codec.Session.{send_command, send_expect_ok}

-- The fuel bounds the notifications that may come before the response.
module _ {L E : Type 0} (T : Transport L E) (fuel : ℕ) where
  unfoldable pub bytecount : ℕ → Async L E (Unit {0})
  bytecount interval = send_expect_ok T fuel (byte_count interval)

  unfoldable pub signal : Signal → Async L E (Unit {0})
  signal value = send_expect_ok T fuel (Command.signal value)

  unfoldable pub kill : KillTarget → Async L E (Unit {0})
  kill target = send_expect_ok T fuel (Command.kill target)

  unfoldable pub hold_on : Async L E (Unit {0})
  hold_on = send_expect_ok T fuel (Command.hold_on)

  unfoldable pub hold_off : Async L E (Unit {0})
  hold_off = send_expect_ok T fuel (Command.hold_off)

  unfoldable pub hold_release : Async L E (Unit {0})
  hold_release = send_expect_ok T fuel (Command.hold_release)

  unfoldable pub username : AuthType → Str → Async L E (Unit {0})
  username auth_type value = send_expect_ok T fuel (Command.username auth_type value)

  unfoldable pub password : AuthType → Str → Async L E (Unit {0})
  password auth_type value = send_expect_ok T fuel (Command.password auth_type value)

  unfoldable pub auth_retry : AuthRetryMode → Async L E (Unit {0})
  auth_retry mode = send_expect_ok T fuel (Command.auth_retry mode)

  unfoldable pub forget_passwords : Async L E (Unit {0})
  forget_passwords = send_expect_ok T fuel (Command.forget_passwords)

  unfoldable pub challenge_response : Str → Str → Async L E (Unit {0})
  challenge_response state_id answer =
      send_expect_ok T fuel (Command.challenge_response state_id answer)

  unfoldable pub static_challenge_response : Str → Str → Async L E (Unit {0})
  static_challenge_response secret answer =
      send_expect_ok T fuel (Command.static_challenge_response secret answer)

  unfoldable pub cr_response : Str → Async L E (Unit {0})
  cr_response answer = send_expect_ok T fuel (Command.cr_response answer)

  unfoldable pub need_ok : Str → NeedOkResponse → Async L E (Unit {0})
  need_ok name answer = send_expect_ok T fuel (Command.need_ok name answer)

  unfoldable pub need_str : Str → Str → Async L E (Unit {0})
  need_str name value = send_expect_ok T fuel (Command.need_str name value)

  unfoldable pub rsa_sig : List Str → Async L E (Unit {0})
  rsa_sig base64_lines = send_expect_ok T fuel (Command.rsa_sig base64_lines)

  unfoldable pub pk_sig : List Str → Async L E (Unit {0})
  pk_sig base64_lines = send_expect_ok T fuel (Command.pk_sig base64_lines)

  unfoldable pub certificate : List Str → Async L E (Unit {0})
  certificate pem_lines = send_expect_ok T fuel (Command.certificate pem_lines)

  unfoldable pub client_auth : ℕ → ℕ → List Str → Async L E (Unit {0})
  client_auth cid kid config_lines =
      send_expect_ok T fuel (Command.client_auth cid kid config_lines)

  unfoldable pub client_auth_nt : ℕ → ℕ → Async L E (Unit {0})
  client_auth_nt cid kid = send_expect_ok T fuel (Command.client_auth_nt cid kid)

  unfoldable pub client_deny : ClientDeny → Async L E (Unit {0})
  client_deny deny = send_expect_ok T fuel (Command.client_deny deny)

  unfoldable pub client_kill : ℕ → Option Str → Async L E (Unit {0})
  client_kill cid message = send_expect_ok T fuel (Command.client_kill cid message)

  unfoldable pub client_pending_auth : ℕ → ℕ → Str → ℕ → Async L E (Unit {0})
  client_pending_auth cid kid extra timeout =
      send_expect_ok T fuel (Command.client_pending_auth cid kid extra timeout)

  unfoldable pub remote : RemoteAction → Async L E (Unit {0})
  remote action = send_expect_ok T fuel (Command.remote action)

  unfoldable pub proxy : ProxyAction → Async L E (Unit {0})
  proxy action = send_expect_ok T fuel (Command.proxy action)

  unfoldable pub env_filter : ℕ → Async L E (Unit {0})
  env_filter level = send_expect_ok T fuel (Command.env_filter level)

  unfoldable pub push_update_broad : Str → Async L E (Unit {0})
  push_update_broad options = send_expect_ok T fuel (Command.push_update_broad options)

  unfoldable pub push_update_cid : ℕ → Str → Async L E (Unit {0})
  push_update_cid cid options = send_expect_ok T fuel (Command.push_update_cid cid options)

  unfoldable pub management_password : Str → Async L E (Unit {0})
  management_password value = send_expect_ok T fuel (Command.management_password value)

  unfoldable pub set_version : ℕ → Async L E (Unit {0})
  set_version version =
      if ltb version 4
      then (send_command T (Command.set_version version) >> pure tt)
      else send_expect_ok T fuel (Command.set_version version)

  unfoldable pub exit : Async L E (Unit {0})
  exit = send_command T Command.exit >> pure tt
