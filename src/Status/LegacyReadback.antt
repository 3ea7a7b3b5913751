-- ===== src/Status/LegacyReadback.antt =====
-- The first format of openvpn-mgmt-codec/src/status.rs: a whole status, printed and read back.
use mathlib.Core.List.{map}
use openvpn_mgmt_codec.Prelude.{
  ℕ, ◌≡◌, refl, sym, ap, ◌∙◌, List, [], ◌∷◌, ◌++◌, Option, none, some, All, append-nil,
  append_assoc,
}
use openvpn_mgmt_codec.Prelude.Results.{ok, ◌>>=◌}
use openvpn_mgmt_codec.Text.{Str, codes, str_eq, strip_prefix, join}
use openvpn_mgmt_codec.Text.Decimal.{to_string, parse-to_string, max_u64}
use openvpn_mgmt_codec.Command.Parse.Arguments.{split}
use openvpn_mgmt_codec.Responses.Laws.{split-Lacks}
use openvpn_mgmt_codec.Status.{
  StatusResponse, ConnectedClient, RoutingEntry, empty_status, apply_global_stat,
}
use openvpn_mgmt_codec.Status.Rows.{Fits}
use openvpn_mgmt_codec.Status.Tagged.{parse_status, is_v1}
use openvpn_mgmt_codec.Status.Legacy.{
  Section, header, client_list, routing_table, global_stats, read_fields, read_line, read_lines,
  parse_status_v1,
}
use openvpn_mgmt_codec.Status.LegacyLaws.{
  client_text, route_text, plain_client, plain_route, IsPlainClient, IsPlainRoute,
  read_line-client_text, read_line-route_text, to_string-Lacks,
}

read_lines-read_line :
    (r r' : Section × StatusResponse) (line : Str) (lines : List Str)
    → read_line r line ≡ ok r'
    → read_lines r (line ∷ lines) ≡ read_lines r' lines
unfolding read_lines
read_lines-read_line r r' line lines h = rw h refl

read_clients :
    (cs : List ConnectedClient) (st : StatusResponse) (rest : List Str)
    → All IsPlainClient cs
    → read_lines (client_list, st) (map client_text cs ++ rest)
      ≡ read_lines (client_list, record st { clients = st.clients ++ map plain_client cs }) rest
read_clients [] st rest h =
    ap (λ l. read_lines (client_list, record st { clients = l }) rest) (sym (append-nil st.clients))
read_clients (c ∷ cs) st rest h =
    read_lines-read_line _ _ (client_text c) (map client_text cs ++ rest)
      (read_line-client_text st c h.0)
    ∙ (read_clients cs (record st { clients = st.clients ++ (plain_client c ∷ []) }) rest h.1
        ∙ ap (λ l. read_lines (client_list, record st { clients = l }) rest)
            (append_assoc st.clients (plain_client c ∷ []) (map plain_client cs)))

read_routes :
    (rs : List RoutingEntry) (st : StatusResponse) (rest : List Str)
    → All IsPlainRoute rs
    → read_lines (routing_table, st) (map route_text rs ++ rest)
      ≡ read_lines (routing_table, record st { routes = st.routes ++ map plain_route rs }) rest
read_routes [] st rest h =
    ap (λ l. read_lines (routing_table, record st { routes = l }) rest) (sym (append-nil st.routes))
read_routes (r ∷ rs) st rest h =
    read_lines-read_line _ _ (route_text r) (map route_text rs ++ rest)
      (read_line-route_text st r h.0)
    ∙ (read_routes rs (record st { routes = st.routes ++ (plain_route r ∷ []) }) rest h.1
        ∙ ap (λ l. read_lines (routing_table, record st { routes = l }) rest)
            (append_assoc st.routes (plain_route r ∷ []) (map plain_route rs)))

abbrev queue_lines : Option ℕ → List Str
queue_lines none = []
queue_lines (some n) = (codes "Max bcast/mcast queue length," ++ to_string n) ∷ []

-- The lines of the first format: the clients, the routes and the length of the queue.
unfoldable pub legacy_lines : Str → StatusResponse → List Str
legacy_lines updated st =
    codes "OpenVPN CLIENT LIST"
      ∷ (codes "Updated," ++ updated)
      ∷ codes "Common Name,Real Address,Bytes Received,Bytes Sent,Connected Since"
      ∷ map client_text st.clients
    ++ (codes "ROUTING TABLE"
          ∷ codes "Virtual Address,Common Name,Real Address,Last Ref"
          ∷ map route_text st.routes
        ++ (codes "GLOBAL STATS" ∷ queue_lines st.global_stats.max_bcast_mcast_queue_length))

-- What the first format says of a status.
abbrev pub plain_status : Str → StatusResponse → StatusResponse
plain_status updated st = record {
  title = none;
  timestamp = none;
  updated = some updated;
  clients = map plain_client st.clients;
  routes = map plain_route st.routes;
  global_stats = record {
    max_bcast_mcast_queue_length = st.global_stats.max_bcast_mcast_queue_length;
    dco_enabled = none;
  };
}

read_top :
    (updated : Str) (rest : List Str)
    → read_lines
        (header, empty_status)
        (codes "OpenVPN CLIENT LIST"
          ∷ (codes "Updated," ++ updated)
          ∷ codes "Common Name,Real Address,Bytes Received,Bytes Sent,Connected Since"
          ∷ rest)
      ≡ read_lines (client_list, record empty_status { updated = some updated }) rest
unfolding read_lines read_line read_fields str_eq strip_prefix split
read_top updated rest = refl

read_middle :
    (st : StatusResponse) (rest : List Str)
    → read_lines
        (client_list, st)
        (codes "ROUTING TABLE" ∷ codes "Virtual Address,Common Name,Real Address,Last Ref" ∷ rest)
      ≡ read_lines (routing_table, st) rest
unfolding read_lines read_line read_fields str_eq strip_prefix split
read_middle st rest = refl

read_queue :
    (st : StatusResponse) (o : Option ℕ)
    → Fits o
    → st.global_stats ≡ empty_status.global_stats
    → read_lines (routing_table, st) (codes "GLOBAL STATS" ∷ queue_lines o)
      ≡ ok (
        global_stats,
        record st {
          global_stats = record { max_bcast_mcast_queue_length = o; dco_enabled = none };
        },
      )
unfolding read_lines read_line read_fields str_eq strip_prefix split apply_global_stat join
read_queue st none h e = rw (sym e) refl
read_queue st (some n) h e =
    rw (split-Lacks b',' (to_string n) (to_string-Lacks n), parse-to_string max_u64 n h, e) refl

-- A status is printed in the first format: its update time, its clients, its routes and the
-- length of the queue. `parse_status` reads them back, with what this format does not say left
-- empty. The numbers fit 64 bits; the times may have commas, the other fields have none; no
-- client and no route starts with the field `Updated`, and no route with `Virtual Address`.
pub parse_status-legacy_lines :
    (updated : Str) (st : StatusResponse)
    → All IsPlainClient st.clients
    → All IsPlainRoute st.routes
    → Fits st.global_stats.max_bcast_mcast_queue_length
    → parse_status (legacy_lines updated st) ≡ ok (plain_status updated st)
unfolding parse_status parse_status_v1 is_v1 legacy_lines str_eq
parse_status-legacy_lines updated st c r q =
    ap (λ x. x >>= λ state. ok (state.1))
      (read_top updated _
        ∙ (read_clients st.clients _ _ c
            ∙ (read_middle _ _
                ∙ (read_routes st.routes _ _ r
                    ∙ read_queue _ st.global_stats.max_bcast_mcast_queue_length q refl))))
