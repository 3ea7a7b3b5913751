-- ===== src/Status/Rows.antt =====
-- The rows of a client and of a route in the status (openvpn-mgmt-codec/src/status.rs), read back.
use openvpn_mgmt_codec.Prelude.{
  ℕ, ◌≤◌, ◌≡◌, ◌≢◌, refl, false, List, [], ◌∷◌, ◌++◌, Option, none, some, arith, ◌||◌, All,
}
use openvpn_mgmt_codec.Prelude.Results.{ok}
use openvpn_mgmt_codec.Text.{Str, codes, str_eq, is_empty}
use openvpn_mgmt_codec.Text.Decimal.{
  to_string, to_string-ne-nil, to_string-IsDigit, IsDigit, parse-to_string, max_u64,
}
use openvpn_mgmt_codec.Status.{
  parse_u64, parse_optional_u64, parse_optional_string, StatusResponse, ConnectedClient,
  RoutingEntry,
}
use openvpn_mgmt_codec.Status.Tagged.{read_client, read_route, read_fields}

-- `UNDEF` stands for no text.
abbrev pub text_or_undef : Option Str → Str
text_or_undef none = codes "UNDEF"
text_or_undef (some s) = s

abbrev pub number_or_undef : Option ℕ → Str
number_or_undef none = codes "UNDEF"
number_or_undef (some n) = to_string n

abbrev pub client_row : ConnectedClient → List Str
client_row c =
    codes "CLIENT_LIST"
    ∷ c.common_name
    ∷ c.real_address
    ∷ c.virtual_address
    ∷ c.virtual_ipv6
    ∷ to_string c.bytes_in
    ∷ to_string c.bytes_out
    ∷ c.connected_since
    ∷ number_or_undef c.connected_since_t
    ∷ text_or_undef c.username
    ∷ number_or_undef c.cid
    ∷ number_or_undef c.peer_id
    ∷ text_or_undef c.cipher
    ∷ []

abbrev pub route_row : RoutingEntry → List Str
route_row r =
    codes "ROUTING_TABLE"
    ∷ r.virtual_address
    ∷ r.common_name
    ∷ r.real_address
    ∷ r.last_ref
    ∷ number_or_undef r.last_ref_t
    ∷ []

-- A text that stands for itself.
abbrev pub IsGiven : Option Str → Type 0
IsGiven none = Unit
IsGiven (some s) = (is_empty s ≡ false) × (str_eq s (codes "UNDEF") ≡ false)

abbrev pub Fits : Option ℕ → Type 0
Fits none = Unit
Fits (some n) = n ≤ max_u64

abbrev pub IsClient : ConnectedClient → Type 0
IsClient c =
    (c.bytes_in ≤ max_u64)
    × (c.bytes_out ≤ max_u64)
    × Fits c.connected_since_t
    × IsGiven c.username
    × Fits c.cid
    × Fits c.peer_id
    × IsGiven c.cipher

abbrev pub IsRoute : RoutingEntry → Type 0
IsRoute r = Fits r.last_ref_t

parse_optional_string-text_or_undef :
    (o : Option Str) → IsGiven o → parse_optional_string (text_or_undef o) ≡ o
unfolding parse_optional_string str_eq
parse_optional_string-text_or_undef none h = refl
parse_optional_string-text_or_undef (some s) h = rw (h.0, h.1) refl

undef_digits : (s : Str) → s ≢ [] → All IsDigit s → (is_empty s || str_eq s (codes "UNDEF")) ≡ false
unfolding str_eq
undef_digits [] n h = absurd (n refl)
undef_digits (c ∷ s) n h = ground arith

-- Printed digits are neither empty nor `UNDEF`.
undef-to_string : (n : ℕ) → (is_empty (to_string n) || str_eq (to_string n) (codes "UNDEF")) ≡ false
undef-to_string n = undef_digits (to_string n) (to_string-ne-nil n) (to_string-IsDigit n)

pub parse_optional_u64-number_or_undef :
    (o : Option ℕ) → Fits o → parse_optional_u64 (number_or_undef o) ≡ o
unfolding parse_optional_u64 str_eq
parse_optional_u64-number_or_undef none h = refl
parse_optional_u64-number_or_undef (some n) h = rw (undef-to_string n) (parse-to_string max_u64 n h)

pub read_client_row :
    (sep : ℕ) (st : StatusResponse) (c : ConnectedClient)
    → IsClient c
    → read_fields sep st (client_row c) ≡ ok (record st { clients = st.clients ++ (c ∷ []) })
unfolding read_fields read_client parse_u64 str_eq
read_client_row sep st c (h1, h2, h3, h4, h5, h6, h7) =
    rw
      (
        parse-to_string max_u64 c.bytes_in h1,
        parse-to_string max_u64 c.bytes_out h2,
        parse_optional_u64-number_or_undef c.connected_since_t h3,
        parse_optional_string-text_or_undef c.username h4,
        parse_optional_u64-number_or_undef c.cid h5,
        parse_optional_u64-number_or_undef c.peer_id h6,
        parse_optional_string-text_or_undef c.cipher h7,
      )
      refl

pub read_route_row :
    (sep : ℕ) (st : StatusResponse) (r : RoutingEntry)
    → IsRoute r
    → read_fields sep st (route_row r) ≡ ok (record st { routes = st.routes ++ (r ∷ []) })
unfolding read_fields read_route str_eq
read_route_row sep st r h = rw (parse_optional_u64-number_or_undef r.last_ref_t h) refl
