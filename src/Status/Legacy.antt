-- ===== src/Status/Legacy.antt =====
-- `parse_status_v1` of openvpn-mgmt-codec/src/status.rs.
use openvpn_mgmt_codec.Prelude.{
  List, [], ◌∷◌, ◌++◌, none, some, length, drop, ltb, leb, if◌then◌else◌,
}
use openvpn_mgmt_codec.Prelude.Results.{Result, ok, err, ◌>>=◌}
use openvpn_mgmt_codec.Prelude.Options.{unwrap_or}
use openvpn_mgmt_codec.Text.{Str, codes, str_eq, starts_with, strip_prefix, join}
use openvpn_mgmt_codec.Command.Parse.Arguments.{split}
use openvpn_mgmt_codec.Responses.States.{get_text}
use openvpn_mgmt_codec.Status.{
  StatusResponse, ConnectedClient, RoutingEntry, ParseStatusError, client_list_too_few_fields,
  routing_table_too_few_fields, empty_status, parse_u64, apply_global_stat,
}

pub data Section : Type 0 where
  header client_list routing_table global_stats : Section

abbrev State : Type 0
State = Section × StatusResponse

unfoldable pub read_client : List Str → Result ParseStatusError ConnectedClient
read_client fields =
    if ltb (length fields) 5
    then err (client_list_too_few_fields (length fields))
    else (parse_u64 (get_text fields 2) "bytes_received" >>= λ received.
        parse_u64 (get_text fields 3) "bytes_sent" >>= λ sent. ok (record {
          common_name = get_text fields 0;
          real_address = get_text fields 1;
          virtual_address = [];
          virtual_ipv6 = [];
          bytes_in = received;
          bytes_out = sent;
          connected_since = join b',' (drop 4 fields);
          connected_since_t = none;
          username = none;
          cid = none;
          peer_id = none;
          cipher = none;
        }))

unfoldable pub read_route : List Str → Result ParseStatusError RoutingEntry
read_route fields =
    if ltb (length fields) 4
    then err (routing_table_too_few_fields (length fields))
    else ok (record {
      virtual_address = get_text fields 0;
      common_name = get_text fields 1;
      real_address = get_text fields 2;
      last_ref = join b',' (drop 3 fields);
      last_ref_t = none;
    })

-- The `match section` on the fields of a line.
unfoldable pub read_fields : State → List Str → Result ParseStatusError State
read_fields (header, status) fields =
    if str_eq (get_text fields 0) (codes "Common Name")
    then ok (client_list, status)
    else ok (header, status)
read_fields (client_list, status) fields = do
  client ← read_client fields
  ok (client_list, record status { clients = status.clients ++ (client ∷ []) })
read_fields (routing_table, status) fields =
    if str_eq (get_text fields 0) (codes "Virtual Address")
    then ok (routing_table, status)
    else (read_route fields >>= λ route.
        ok (routing_table, record status { routes = status.routes ++ (route ∷ []) }))
read_fields (global_stats, status) fields =
    let stats =
      apply_global_stat status.global_stats (get_text fields 0) (join b',' (drop 1 fields)) in
    if leb 2 (length fields)
    then ok (global_stats, record status { global_stats = stats })
    else ok (global_stats, status)

-- One line of the loop.
unfoldable pub read_line : State → Str → Result ParseStatusError State
read_line (section, status) line =
    if str_eq line (codes "OpenVPN CLIENT LIST")
    then ok (header, status)
    else if starts_with (codes "Updated,") line
    then ok (
      section,
      record status { updated = some (unwrap_or (strip_prefix (codes "Updated,") line) []) },
    )
    else if str_eq line (codes "ROUTING TABLE")
    then ok (routing_table, status)
    else if str_eq line (codes "GLOBAL STATS")
    then ok (global_stats, status)
    else read_fields (section, status) (split b',' line)

unfoldable pub read_lines : State → List Str → Result ParseStatusError State
read_lines state [] = ok state
read_lines state (line ∷ lines) = do state' ← read_line state line; read_lines state' lines

unfoldable pub parse_status_v1 : List Str → Result ParseStatusError StatusResponse
parse_status_v1 lines = do state ← read_lines (header, empty_status) lines; ok (state.1)
