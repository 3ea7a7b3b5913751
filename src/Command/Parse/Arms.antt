-- ===== src/Command/Parse/Arms.antt =====
-- The arms of `FromStr for OvpnCommand` in openvpn-mgmt-codec/src/command.rs that take arguments
-- apart; `args` is trimmed.
use openvpn_mgmt_codec.Prelude.{List, [], ◌∷◌, Option, none, some, if◌then◌else◌}
use openvpn_mgmt_codec.Prelude.Results.{Result, ok, err, ◌>>=◌}
use openvpn_mgmt_codec.Prelude.Options.{map, unwrap_or}
use openvpn_mgmt_codec.Text.{
  Str, codes, str_eq, is_empty, is_whitespace, trim, split_once_by, splitn_by, splitn, next, rest,
}
use openvpn_mgmt_codec.Text.Decimal.{max_u16, max_u64, parse}
use openvpn_mgmt_codec.Values.NeedOk.{NeedOkResponse}
use openvpn_mgmt_codec.Values.NeedOk
use openvpn_mgmt_codec.Values.TransportProtocol.{
  TransportProtocol, unknown, parse_transport_protocol,
}
use openvpn_mgmt_codec.Command.Types.{
  OvpnCommand, common_name, address, kill, username, password, need_ok, need_str, client_auth,
  client_auth_nt, client_deny, client_kill,
}
use openvpn_mgmt_codec.Command.Token.{next_token}
use openvpn_mgmt_codec.Command.Parse.Arguments.{
  CommandParseError, invalid_choice, missing_args, ok_or, parse_id, parse_number, token,
  auth_type_or_unknown, rsplit_once_by, trimmed_lines,
}

abbrev pub Parsed : Type 0
Parsed = Result CommandParseError OvpnCommand

abbrev protocol_or_unknown : Str → TransportProtocol
protocol_or_unknown s = elim (parse_transport_protocol s) [ ok p ↦ p | err e ↦ unknown s ]

-- `proto:ip:port` with a port, if there are three parts.
unfoldable pub parse_address : List Str → Option OvpnCommand
parse_address (proto ∷ ip ∷ port ∷ []) =
    map (λ n. kill (address (protocol_or_unknown proto) ip n)) (parse max_u16 port)
parse_address _ = none

unfoldable pub parse_kill : Str → Parsed
parse_kill args =
    if is_empty args
    then err (missing_args "kill requires a target (common name or proto:ip:port)")
    else ok (unwrap_or (parse_address (splitn 3 b':' args)) (kill (common_name args)))

unfoldable pub parse_username : Str → Parsed
parse_username args = do
  auth_type ← token args "usage: username <auth-type> <value>"
  value ← token auth_type.1 "usage: username <auth-type> <value>"
  ok (username (auth_type_or_unknown auth_type.0) value.0)

unfoldable pub parse_password : Str → Parsed
parse_password args = do
  auth_type ← token args "usage: password <auth-type> <value>"
  value ← token auth_type.1 "usage: password <auth-type> <value>"
  ok (password (auth_type_or_unknown auth_type.0) value.0)

unfoldable pub parse_need_ok_response : Str → Result CommandParseError NeedOkResponse
parse_need_ok_response resp =
    if str_eq resp (codes "ok")
    then ok NeedOk.accept
    else if str_eq resp (codes "cancel")
    then ok NeedOk.cancel
    else err (invalid_choice "needok response" resp "use ok or cancel")

unfoldable pub parse_needok : Str → Parsed
parse_needok args = do
  cut ← ok_or (rsplit_once_by is_whitespace args) (missing_args "usage: needok <name> ok|cancel")
  response ← parse_need_ok_response cut.1
  ok (need_ok (trim cut.0) response)

unfoldable pub parse_needstr : Str → Parsed
parse_needstr args = do
  name ← token args "usage: needstr <name> <value>"
  value ← token name.1 "usage: needstr <name> <value>"
  ok (need_str name.0 value.0)

unfoldable pub parse_client_auth : Str → Parsed
parse_client_auth args = do
  let parts = splitn_by 3 is_whitespace args
  first ← ok_or (next parts) (missing_args "usage: client-auth <cid> <kid> [config-lines]")
  cid ← parse_id max_u64 first "cid must be a number"
  second ← ok_or (next (rest parts)) (missing_args "usage: client-auth <cid> <kid> [config-lines]")
  kid ← parse_id max_u64 second "kid must be a number"
  ok (client_auth cid kid (unwrap_or (map trimmed_lines (next (rest (rest parts)))) []))

unfoldable pub parse_client_auth_nt : Str → Parsed
parse_client_auth_nt args = do
  cut ← ok_or (split_once_by is_whitespace args) (missing_args "usage: client-auth-nt <cid> <kid>")
  cid ← parse_id max_u64 cut.0 "cid must be a number"
  kid ← parse_id max_u64 (trim cut.1) "kid must be a number"
  ok (client_auth_nt cid kid)

unfoldable pub parse_client_deny : Str → Parsed
parse_client_deny args = do
  cid_token ← token args "usage: client-deny <cid> <kid> <reason> [client-reason]"
  cid ← parse_id max_u64 cid_token.0 "cid must be a number"
  kid_token ← token cid_token.1 "usage: client-deny <cid> <kid> <reason> [client-reason]"
  kid ← parse_id max_u64 kid_token.0 "kid must be a number"
  reason ← token kid_token.1 "usage: client-deny <cid> <kid> <reason> [client-reason]"
  ok (
      client_deny (record {
        cid = cid;
        kid = kid;
        reason = reason.0;
        client_reason = map (λ (cut : Str × Str). cut.0) (next_token reason.1);
      }))

unfoldable pub parse_client_kill : Str → Parsed
parse_client_kill args = do
  let cut : Str × Option Str = elim (split_once_by is_whitespace args) [
    | some cut ↦ (cut.0, some (trim cut.1))
    | none ↦ (args, none)
  ]
  cid ← parse_number max_u64 "client-kill CID" cut.0
  ok (client_kill cid cut.1)
