-- ===== src/Status/Readback.antt =====
-- A status (openvpn-mgmt-codec/src/status.rs), printed in the comma or the tab format and read back.
use mathlib.Core.List.{map}
use openvpn_mgmt_codec.Prelude.{
  ℕ, ◌≡◌, refl, sym, ap, ◌∙◌, Bool, true, false, List, [], ◌∷◌, ◌++◌, Option, none, some, All,
  append-nil, append_assoc,
}
use openvpn_mgmt_codec.Prelude.Results.{Result, ok, ◌>>=◌}
use openvpn_mgmt_codec.Text.{Str, codes, str_eq, join}
use openvpn_mgmt_codec.Text.Decimal.{to_string, parse-to_string, max_u64}
use openvpn_mgmt_codec.Status.{
  ParseStatusError, parse_flag, apply_global_stat, StatusResponse, ConnectedClient, RoutingEntry,
  empty_status,
}
use openvpn_mgmt_codec.Status.Tagged.{read_fields, read_lines, parse_status, parse_status_v2v3}
use openvpn_mgmt_codec.Status.Formats.{
  lines_of, IsRow, read_lines-split, >>=_ap, parse_status-lines_of, parse_status-comma,
}
use openvpn_mgmt_codec.Responses.Laws.{split-join}
use openvpn_mgmt_codec.Status.Rows.{
  number_or_undef, client_row, route_row, Fits, IsClient, IsRoute,
  parse_optional_u64-number_or_undef, read_client_row, read_route_row,
}

-- The loop on the fields of the lines.
unfoldable read_rows : ℕ → StatusResponse → List (List Str) → Result ParseStatusError StatusResponse
read_rows sep st [] = ok st
read_rows sep st (row ∷ rows) = read_fields sep st row >>= λ st'. read_rows sep st' rows

read_lines-read_rows :
    (st : StatusResponse) (rows : List (List Str))
    → All IsRow rows
    → read_lines b',' st (lines_of b',' rows) ≡ read_rows b',' st rows
unfolding read_rows read_lines lines_of
read_lines-read_rows st [] h = refl
read_lines-read_rows st ([] ∷ rows) h = absurd (h.0)
read_lines-read_rows st ((tag ∷ cols) ∷ rows) h =
    read_lines-split b',' st (tag ∷ cols) rows (split-join b',' tag cols h.0.0)
    ∙ >>=_ap (read_fields b',' st (tag ∷ cols)) _ _ (λ st'. read_lines-read_rows st' rows h.1)

module _ (sep : ℕ) where
  read_row :
      (st : StatusResponse) (row : List Str) (rows : List (List Str)) {st' : StatusResponse}
      → read_fields sep st row ≡ ok st'
      → read_rows sep st (row ∷ rows) ≡ read_rows sep st' rows
  unfolding read_rows
  read_row st row rows e = rw e refl

  read_clients :
      (cs : List ConnectedClient) (st : StatusResponse) (rest : List (List Str))
      → All IsClient cs
      → read_rows sep st (map client_row cs ++ rest)
        ≡ read_rows sep (record st { clients = st.clients ++ cs }) rest
  read_clients [] st rest h =
      ap (λ l. read_rows sep (record st { clients = l }) rest) (sym (append-nil st.clients))
  read_clients (c ∷ cs) st rest h =
      read_row st (client_row c) (map client_row cs ++ rest) (read_client_row sep st c h.0)
      ∙ (read_clients cs (record st { clients = st.clients ++ (c ∷ []) }) rest h.1
          ∙ ap (λ l. read_rows sep (record st { clients = l }) rest)
              (append_assoc st.clients (c ∷ []) cs))

  read_routes :
      (rs : List RoutingEntry) (st : StatusResponse) (rest : List (List Str))
      → All IsRoute rs
      → read_rows sep st (map route_row rs ++ rest)
        ≡ read_rows sep (record st { routes = st.routes ++ rs }) rest
  read_routes [] st rest h =
      ap (λ l. read_rows sep (record st { routes = l }) rest) (sym (append-nil st.routes))
  read_routes (r ∷ rs) st rest h =
      read_row st (route_row r) (map route_row rs ++ rest) (read_route_row sep st r h.0)
      ∙ (read_routes rs (record st { routes = st.routes ++ (r ∷ []) }) rest h.1
          ∙ ap (λ l. read_rows sep (record st { routes = l }) rest)
              (append_assoc st.routes (r ∷ []) rs))

abbrev flag_text : Bool → Str
flag_text true = codes "1"
flag_text false = codes "0"

abbrev queue_rows : Option ℕ → List (List Str)
queue_rows none = []
queue_rows (some n) =
    (codes "GLOBAL_STATS" ∷ codes "Max bcast/mcast queue length" ∷ to_string n ∷ []) ∷ []

abbrev dco_rows : Option Bool → List (List Str)
dco_rows none = []
dco_rows (some b) = (codes "GLOBAL_STATS" ∷ codes "dco_enabled" ∷ flag_text b ∷ []) ∷ []

-- The rows of a status with a title and an update time.
unfoldable pub status_rows : Str → Str → StatusResponse → List (List Str)
status_rows title updated st =
    (codes "TITLE" ∷ title ∷ [])
      ∷ (codes "TIME" ∷ updated ∷ number_or_undef st.timestamp ∷ [])
      ∷ map client_row st.clients
    ++ (map route_row st.routes
        ++ (queue_rows st.global_stats.max_bcast_mcast_queue_length
            ++ dco_rows st.global_stats.dco_enabled))

-- The numbers fit, and the texts that may be missing are not written like a missing one.
abbrev pub IsStatus : StatusResponse → Type 0
IsStatus st =
    Fits st.timestamp
    × All IsClient st.clients
    × All IsRoute st.routes
    × Fits st.global_stats.max_bcast_mcast_queue_length

read_stats :
    (st : StatusResponse) (a : Option ℕ) (b : Option Bool)
    → Fits a
    → st.global_stats ≡ empty_status.global_stats
    → read_rows b',' st (queue_rows a ++ dco_rows b)
      ≡ ok (record st {
        global_stats = record { max_bcast_mcast_queue_length = a; dco_enabled = b };
      })
unfolding read_rows read_fields apply_global_stat parse_flag str_eq join
read_stats st none none h e = rw (sym e) refl
read_stats st none (some true) h e = rw e refl
read_stats st none (some false) h e = rw e refl
read_stats st (some n) none h e = rw (e, parse-to_string max_u64 n h) refl
read_stats st (some n) (some true) h e = rw (parse-to_string max_u64 n h) refl
read_stats st (some n) (some false) h e = rw (parse-to_string max_u64 n h) refl

read_head :
    (title updated : Str) (t : Option ℕ) (rest : List (List Str))
    → Fits t
    → read_rows b',' empty_status
        ((codes "TITLE" ∷ title ∷ []) ∷ (codes "TIME" ∷ updated ∷ number_or_undef t ∷ []) ∷ rest)
      ≡ read_rows b','
          (record empty_status { title = some title; updated = some updated; timestamp = t })
          rest
unfolding read_rows read_fields str_eq
read_head title updated t rest h = rw (parse_optional_u64-number_or_undef t h) refl

read_rows-status_rows :
    (title updated : Str) (st : StatusResponse)
    → IsStatus st
    → read_rows b',' empty_status (status_rows title updated st)
      ≡ ok (record st { title = some title; updated = some updated })
unfolding status_rows
read_rows-status_rows title updated st (h1, h2, h3, h4) =
    read_head title updated st.timestamp _ h1
    ∙ (read_clients b',' st.clients _ _ h2
        ∙ (read_routes b',' st.routes _ _ h3
            ∙ read_stats _ st.global_stats.max_bcast_mcast_queue_length st.global_stats.dco_enabled
                h4 refl))

-- A status is printed with a title and an update time, in the comma or the tab format: its
-- clients, routes and global statistics, `UNDEF` for what is missing. `parse_status` tells the
-- format and reads it back. The numbers fit 64 bits, a user name or cipher that is there is
-- neither empty nor `UNDEF`, and no field has a comma or a tab.
pub parse_status-status_rows :
    (title updated : Str) (st : StatusResponse)
    → IsStatus st
    → All IsRow (status_rows title updated st)
    → let printed = status_rows title updated st in
      let read = ok (record st { title = some title; updated = some updated }) in
      (parse_status (lines_of b',' printed) ≡ read) × (parse_status (lines_of b'\t' printed) ≡ read)
unfolding status_rows parse_status parse_status_v2v3
parse_status-status_rows title updated st h rows =
    let comma =
      parse_status-comma title [] _ rows
      ∙ (read_lines-read_rows empty_status (status_rows title updated st) rows
          ∙ read_rows-status_rows title updated st h) in
    (comma, sym (parse_status-lines_of title [] _ rows) ∙ comma)
