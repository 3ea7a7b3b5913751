-- ===== src/Status/Tagged.antt =====
-- `parse_status_v2v3` and `parse_status` of openvpn-mgmt-codec/src/status.rs.
use openvpn_mgmt_codec.Prelude.{
  ℕ, Bool, ◌&&◌, List, [], ◌∷◌, ◌++◌, Option, none, length, drop, ltb, leb, if◌then◌else◌,
}
use openvpn_mgmt_codec.Prelude.Results.{Result, ok, err, ◌>>=◌}
use openvpn_mgmt_codec.Prelude.Options
use openvpn_mgmt_codec.Text.{Str, codes, str_eq, join}
use openvpn_mgmt_codec.Command.Parse.Arguments.{split}
use openvpn_mgmt_codec.Responses.States.{get, get_text}
use openvpn_mgmt_codec.Status.{
  StatusResponse, ConnectedClient, RoutingEntry, ParseStatusError, client_list_too_few_fields,
  routing_table_too_few_fields, empty_status, parse_u64, parse_optional_u64,
  parse_optional_timestamp, parse_optional_string, apply_global_stat, detect_separator,
}
use openvpn_mgmt_codec.Status.Legacy.{parse_status_v1}

-- `cols.get(i).and_then(f)`
abbrev optional {ℓ} : {A : Type ℓ} → (Str → Option A) → List Str → ℕ → Option A
optional f cols idx = Options.◌>>=◌ (get cols idx) f

-- A client with all twelve columns.
unfoldable pub read_client : List Str → Result ParseStatusError ConnectedClient
read_client cols = do
  received ← parse_u64 (get_text cols 4) "bytes_received"
  sent ← parse_u64 (get_text cols 5) "bytes_sent"
  ok (record {
    common_name = get_text cols 0;
    real_address = get_text cols 1;
    virtual_address = get_text cols 2;
    virtual_ipv6 = get_text cols 3;
    bytes_in = received;
    bytes_out = sent;
    connected_since = get_text cols 6;
    connected_since_t = parse_optional_timestamp (get_text cols 7);
    username = optional parse_optional_string cols 8;
    cid = optional parse_optional_u64 cols 9;
    peer_id = optional parse_optional_u64 cols 10;
    cipher = optional parse_optional_string cols 11;
  })

-- The older layout.
unfoldable pub read_old_client : List Str → Result ParseStatusError ConnectedClient
read_old_client cols =
    if ltb (length cols) 5
    then err (client_list_too_few_fields (length cols))
    else (parse_u64 (get_text cols 3) "bytes_received" >>= λ received.
        parse_u64 (get_text cols 4) "bytes_sent" >>= λ sent. ok (record {
          common_name = get_text cols 0;
          real_address = get_text cols 1;
          virtual_address = get_text cols 2;
          virtual_ipv6 = [];
          bytes_in = received;
          bytes_out = sent;
          connected_since = get_text cols 5;
          connected_since_t = optional parse_optional_timestamp cols 6;
          username = optional parse_optional_string cols 7;
          cid = none;
          peer_id = none;
          cipher = none;
        }))

unfoldable pub read_route : List Str → Result ParseStatusError RoutingEntry
read_route cols =
    if ltb (length cols) 4
    then err (routing_table_too_few_fields (length cols))
    else ok (record {
      virtual_address = get_text cols 0;
      common_name = get_text cols 1;
      real_address = get_text cols 2;
      last_ref = get_text cols 3;
      last_ref_t = optional parse_optional_timestamp cols 4;
    })

-- The `match tag` on the fields of a line.
unfoldable pub read_fields : ℕ → StatusResponse → List Str → Result ParseStatusError StatusResponse
read_fields sep status fields =
    let tag = get_text fields 0 in
    let cols = drop 1 fields in
    if str_eq tag (codes "TITLE")
    then ok (record status { title = get fields 1 })
    else if str_eq tag (codes "TIME")
    then ok (record status {
      updated = get fields 1;
      timestamp = optional parse_optional_timestamp fields 2;
    })
    else if str_eq tag (codes "HEADER")
    then ok status
    else if str_eq tag (codes "CLIENT_LIST")
    then ((if leb 12 (length cols) then read_client cols else read_old_client cols) >>= λ client.
        ok (record status { clients = status.clients ++ (client ∷ []) }))
    else if str_eq tag (codes "ROUTING_TABLE")
    then (read_route cols >>= λ route.
        ok (record status { routes = status.routes ++ (route ∷ []) }))
    else if str_eq tag (codes "GLOBAL_STATS") && leb 3 (length fields)
    then ok (record status {
      global_stats =
          apply_global_stat status.global_stats (get_text fields 1) (join sep (drop 2 fields));
    })
    else ok status

unfoldable pub read_lines : ℕ → StatusResponse → List Str → Result ParseStatusError StatusResponse
read_lines sep status [] = ok status
read_lines sep status (line ∷ lines) = do
  status' ← read_fields sep status (split sep line)
  read_lines sep status' lines

unfoldable pub parse_status_v2v3 : List Str → ℕ → Result ParseStatusError StatusResponse
parse_status_v2v3 lines sep = read_lines sep empty_status lines

-- `lines.first()` is the title of the first format.
unfoldable pub is_v1 : List Str → Bool
is_v1 lines =
    Options.unwrap_or (Options.map (str_eq (codes "OpenVPN CLIENT LIST")) (get lines 0)) Bool.false

unfoldable pub parse_status : List Str → Result ParseStatusError StatusResponse
parse_status lines =
    if is_v1 lines then parse_status_v1 lines else parse_status_v2v3 lines (detect_separator lines)
