-- ===== src/Command/Parse/Overrides.antt =====
-- The arms of `FromStr for OvpnCommand` in openvpn-mgmt-codec/src/command.rs for remotes, proxies,
-- remote entries, pushed options and pending authentication.
use openvpn_mgmt_codec.Prelude.{Bool, true, false, ◌||◌, List, [], ◌∷◌, none, some, if◌then◌else◌}
use openvpn_mgmt_codec.Prelude.Results.{Result, ok, err, ◌>>=◌}
use openvpn_mgmt_codec.Text.{
  Str, codes, str_eq, is_empty, is_whitespace, trim, splitn_by, next, rest,
}
use openvpn_mgmt_codec.Text.Decimal.{max_u16, max_u32, max_u64, parse}
use openvpn_mgmt_codec.Command.Types.{
  remote, accept, skip, skip_n, modify, proxy, no_proxy, http, socks, RemoteEntryRange, single,
  range, all_entries, remote_entry_get, push_update_broad, push_update_cid, client_pending_auth,
  cr_response, env_filter,
}
use openvpn_mgmt_codec.Command.Parse.Arguments.{
  CommandParseError, invalid_choice, invalid_number, missing_args, ok_or, parse_id, parse_number,
  token, split_whitespace,
}
use openvpn_mgmt_codec.Command.Parse.Arms.{Parsed}

abbrev is_word : Str → Str → Str → Bool
is_word s lower upper = str_eq s lower || str_eq s upper

abbrev remote_usage : Parsed
remote_usage = err (missing_args "usage: remote accept|skip [n]|mod <host> <port>")

-- The `match` on the words.
unfoldable pub remote_words : List Str → Parsed
remote_words (w ∷ []) =
    if is_word w (codes "accept") (codes "ACCEPT")
    then ok (remote accept)
    else if is_word w (codes "skip") (codes "SKIP")
    then ok (remote skip)
    else remote_usage
remote_words (w ∷ n ∷ []) =
    if is_word w (codes "skip") (codes "SKIP")
    then (do
      count ←
          ok_or (parse max_u32 n) (
            invalid_choice "remote skip count" n "expected a positive integer (e.g. remote SKIP 3)")
      ok (remote (skip_n count)))
    else remote_usage
remote_words (w ∷ host ∷ port ∷ []) =
    if is_word w (codes "mod") (codes "MOD")
    then (do n ← parse_id max_u16 port "port must be a number"; ok (remote (modify host n)))
    else remote_usage
remote_words _ = remote_usage

unfoldable pub parse_remote : Str → Parsed
parse_remote args = remote_words (split_whitespace args)

abbrev proxy_usage : Parsed
proxy_usage = err (missing_args "usage: proxy none|http <host> <port> [nct]|socks <host> <port>")

unfoldable pub proxy_words : List Str → Parsed
proxy_words (w ∷ []) =
    if is_word w (codes "none") (codes "NONE") then ok (proxy no_proxy) else proxy_usage
proxy_words (w ∷ host ∷ port ∷ []) =
    if is_word w (codes "http") (codes "HTTP")
    then (do n ← parse_id max_u16 port "port must be a number"; ok (proxy (http host n false)))
    else if is_word w (codes "socks") (codes "SOCKS")
    then (do n ← parse_id max_u16 port "port must be a number"; ok (proxy (socks host n)))
    else proxy_usage
proxy_words (w ∷ host ∷ port ∷ nct ∷ []) =
    if is_word w (codes "http") (codes "HTTP")
    then if str_eq nct (codes "nct")
      then (do n ← parse_id max_u16 port "port must be a number"; ok (proxy (http host n true)))
      else proxy_usage
    else proxy_usage
proxy_words _ = proxy_usage

unfoldable pub parse_proxy : Str → Parsed
parse_proxy args = proxy_words (split_whitespace args)

unfoldable pub parse_env_filter : Str → Parsed
parse_env_filter args =
    if is_empty args
    then ok (env_filter 0)
    else (do level ← parse_number max_u32 "env-filter level" args; ok (env_filter level))

unfoldable pub parse_range : Str → Result CommandParseError RemoteEntryRange
parse_range args = do
  let parts = splitn_by 2 is_whitespace args
  from ← elim (next parts) [
    | some first ↦ ok_or (parse max_u32 first) (invalid_number "remote-entry-get index" args)
    | none ↦ err (invalid_number "remote-entry-get index" args)
  ]
  elim (next (rest parts)) [
    | some to_str ↦ do
      end ← ok_or (parse max_u32 (trim to_str)) (invalid_number "remote-entry-get end index" to_str)
      ok (range from end)
    | none ↦ ok (single from)
  ]

unfoldable pub parse_remote_entry_get : Str → Parsed
parse_remote_entry_get args =
    if is_empty args
    then err (missing_args "usage: remote-entry-get i|all [j]")
    else if str_eq args (codes "all")
    then ok (remote_entry_get all_entries)
    else (do r ← parse_range args; ok (remote_entry_get r))

unfoldable pub parse_push_update_broad : Str → Parsed
parse_push_update_broad args = do
  options ← token args "usage: push-update-broad <options>"
  ok (push_update_broad options.0)

unfoldable pub parse_push_update_cid : Str → Parsed
parse_push_update_cid args = do
  cid_token ← token args "usage: push-update-cid <cid> <options>"
  cid ← parse_id max_u64 cid_token.0 "push-update-cid: cid must be a number"
  options ← token cid_token.1 "usage: push-update-cid <cid> <options>"
  ok (push_update_cid cid options.0)

unfoldable pub parse_client_pending_auth : Str → Parsed
parse_client_pending_auth args = do
  cid_token ← token args "usage: client-pending-auth <cid> <kid> <extra> <timeout>"
  cid ← parse_id max_u64 cid_token.0 "cid must be a number"
  kid_token ← token cid_token.1 "usage: client-pending-auth <cid> <kid> <extra> <timeout>"
  kid ← parse_id max_u64 kid_token.0 "kid must be a number"
  extra ← token kid_token.1 "usage: client-pending-auth <cid> <kid> <extra> <timeout>"
  timeout_token ← token extra.1 "usage: client-pending-auth <cid> <kid> <extra> <timeout>"
  timeout ← parse_number max_u32 "client-pending-auth timeout" timeout_token.0
  ok (client_pending_auth cid kid extra.0 timeout)

unfoldable pub parse_cr_response : Str → Parsed
parse_cr_response args = do
  response ← token args "usage: cr-response <response>"
  ok (cr_response response.0)
