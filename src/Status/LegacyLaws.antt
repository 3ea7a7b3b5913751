-- ===== src/Status/LegacyLaws.antt =====
-- A status in the first format of openvpn-mgmt-codec/src/status.rs, printed and read back.
use openvpn_mgmt_codec.Prelude.{
  ℕ, suc, ◌≤◌, ◌≡◌, refl, ap, ◌∙◌, false, List, [], ◌∷◌, ◌++◌, none, arith, ◌==◌, ltb,
  if◌then◌else◌, Lacks, length, Bool-cases, inl, inr,
}
use openvpn_mgmt_codec.Prelude.Results.{ok}
use openvpn_mgmt_codec.Text.{Str, codes, str_eq, starts_with, strip_prefix, join}
use openvpn_mgmt_codec.Text.Decimal.{to_string, to_string-IsDigit, parse-to_string, max_u64}
use openvpn_mgmt_codec.Command.Parse.Arguments.{split, cons_head}
use openvpn_mgmt_codec.Responses.Laws.{split-append, digits-Lacks}
use openvpn_mgmt_codec.Status.{StatusResponse, ConnectedClient, RoutingEntry, parse_u64}
use openvpn_mgmt_codec.Status.Legacy.{
  Section, client_list, routing_table, read_client, read_route, read_fields, read_line,
}

-- The pieces of a text: there is one, and they make up the text.
abbrev IsCut : ℕ → Str → List Str → Type 0
IsCut d s more = (1 ≤ length more) × (join d more ≡ s)

IsCut-cons :
    (d c : ℕ) (s : Str) (more : List Str)
    → IsCut d s more
    → IsCut d (c ∷ s) (if c == d then [] ∷ more else cons_head c more)
unfolding join
IsCut-cons d c s [] h = absurd (omega (arith, h.0))
IsCut-cons d c s (m ∷ []) (l, e) = elim (Bool-cases (c == d)) [
  | inl t ↦ rw t (omega arith, rw e (ap (λ x. x ∷ s) (ground arith)))
  | inr f ↦ rw f (omega arith, ap (◌∷◌ c) e)
]
IsCut-cons d c s (m ∷ n ∷ ns) (l, e) = elim (Bool-cases (c == d)) [
  | inl t ↦ rw t (omega arith, rw e (ap (λ x. x ∷ s) (ground arith)))
  | inr f ↦ rw f (omega arith, ap (◌∷◌ c) e)
]

split-IsCut : (d : ℕ) (s : Str) → IsCut d s (split d s)
unfolding split join
split-IsCut d [] = (omega arith, refl)
split-IsCut d (c ∷ s) = IsCut-cons d c s (split d s) (split-IsCut d s)

-- A text with a comma is no text without one.
str_eq-comma : (a b t : Str) → Lacks b',' t → str_eq (a ++ (b',' ∷ b)) t ≡ false
unfolding str_eq
str_eq-comma [] b [] h = refl
str_eq-comma [] b (x ∷ t) h = ground arith
str_eq-comma (y ∷ a) b [] h = refl
str_eq-comma (y ∷ a) b (x ∷ t) h = ground (arith, str_eq-comma a b t h.1)

-- The first field is all that stands before the first comma.
starts_with-str_eq :
    (p a b : Str)
    → Lacks b',' p
    → Lacks b',' a
    → starts_with (p ++ (b',' ∷ [])) (a ++ (b',' ∷ b)) ≡ str_eq a p
unfolding str_eq strip_prefix
starts_with-str_eq [] [] b hp ha = refl
starts_with-str_eq [] (x ∷ a) b hp ha = ground arith
starts_with-str_eq (y ∷ p) [] b hp ha = ground arith
starts_with-str_eq (y ∷ p) (x ∷ a) b hp ha = ground (arith, starts_with-str_eq p a b hp.1 ha.1)

-- A line that starts with a field, and a comma behind it.
abbrev IsField : Str → Type 0
IsField s = Lacks b',' s × (str_eq s (codes "Updated") ≡ false)

read_line-comma :
    (st : Section × StatusResponse) (a b : Str)
    → IsField a
    → read_line st (a ++ (b',' ∷ b)) ≡ read_fields st (split b',' (a ++ (b',' ∷ b)))
unfolding read_line
read_line-comma (section, status) a b (h, u) =
    rw
      (
        str_eq-comma a b (codes "OpenVPN CLIENT LIST") (omega arith),
        starts_with-str_eq (codes "Updated") a b (omega arith) h,
        u,
        str_eq-comma a b (codes "ROUTING TABLE") (omega arith),
        str_eq-comma a b (codes "GLOBAL STATS") (omega arith),
      )
      refl

unfoldable pub client_text : ConnectedClient → Str
client_text c =
    c.common_name
    ++ (b',' ∷ c.real_address
        ++ (b',' ∷ to_string c.bytes_in
            ++ (b',' ∷ to_string c.bytes_out ++ (b',' ∷ c.connected_since))))

unfoldable pub route_text : RoutingEntry → Str
route_text r =
    r.virtual_address ++ (b',' ∷ r.common_name ++ (b',' ∷ r.real_address ++ (b',' ∷ r.last_ref)))

-- What the first format says of a client and of a route.
abbrev pub plain_client : ConnectedClient → ConnectedClient
plain_client c = record c {
  virtual_address = [];
  virtual_ipv6 = [];
  connected_since_t = none;
  username = none;
  cid = none;
  peer_id = none;
  cipher = none;
}

abbrev pub plain_route : RoutingEntry → RoutingEntry
plain_route r = record r { last_ref_t = none }

abbrev pub IsPlainClient : ConnectedClient → Type 0
IsPlainClient c =
    IsField c.common_name
    × Lacks b',' c.real_address
    × (c.bytes_in ≤ max_u64)
    × (c.bytes_out ≤ max_u64)

abbrev pub IsPlainRoute : RoutingEntry → Type 0
IsPlainRoute r =
    IsField r.virtual_address
    × (str_eq r.virtual_address (codes "Virtual Address") ≡ false)
    × Lacks b',' r.common_name
    × Lacks b',' r.real_address

pub to_string-Lacks : (n : ℕ) → Lacks b',' (to_string n)
to_string-Lacks n =
    digits-Lacks b',' (λ d. absurd (omega arith)) (to_string n) (to_string-IsDigit n)

split-client_text :
    (c : ConnectedClient)
    → IsPlainClient c
    → split b',' (client_text c)
      ≡ c.common_name
        ∷ c.real_address
        ∷ to_string c.bytes_in
        ∷ to_string c.bytes_out
        ∷ split b',' c.connected_since
unfolding client_text
split-client_text c ((n, u), a, i, o) =
    split-append b',' c.common_name _ n
    ∙ ap (λ z. c.common_name ∷ z)
        (split-append b',' c.real_address _ a
          ∙ ap (λ z. c.real_address ∷ z)
              (split-append b',' (to_string c.bytes_in) _ (to_string-Lacks c.bytes_in)
                ∙ ap (λ z. to_string c.bytes_in ∷ z)
                    (split-append b',' (to_string c.bytes_out) _ (to_string-Lacks c.bytes_out))))

split-route_text :
    (r : RoutingEntry)
    → IsPlainRoute r
    → split b',' (route_text r)
      ≡ r.virtual_address ∷ r.common_name ∷ r.real_address ∷ split b',' r.last_ref
unfolding route_text
split-route_text r ((v, u), w, n, a) =
    split-append b',' r.virtual_address _ v
    ∙ ap (λ z. r.virtual_address ∷ z)
        (split-append b',' r.common_name _ n
          ∙ ap (λ z. r.common_name ∷ z) (split-append b',' r.real_address _ a))

read_client-fields :
    (c : ConnectedClient) (more : List Str)
    → c.bytes_in ≤ max_u64
    → c.bytes_out ≤ max_u64
    → IsCut b',' c.connected_since more
    → read_client
        (c.common_name ∷ c.real_address ∷ to_string c.bytes_in ∷ to_string c.bytes_out ∷ more)
      ≡ ok (plain_client c)
unfolding read_client parse_u64
read_client-fields c [] i o (l, e) = absurd (omega (arith, l))
read_client-fields c (m ∷ ms) i o (l, e) =
    rw
      (
        long (length ms),
        parse-to_string max_u64 c.bytes_in i,
        parse-to_string max_u64 c.bytes_out o,
        e,
      )
      refl
  where
    long : (n : ℕ) → ltb (suc (suc (suc (suc (suc n))))) 5 ≡ false
    long n = ground arith

read_route-fields :
    (r : RoutingEntry) (more : List Str)
    → IsCut b',' r.last_ref more
    → read_route (r.virtual_address ∷ r.common_name ∷ r.real_address ∷ more) ≡ ok (plain_route r)
unfolding read_route
read_route-fields r [] (l, e) = absurd (omega (arith, l))
read_route-fields r (m ∷ ms) (l, e) = rw (long (length ms), e) refl
  where
    long : (n : ℕ) → ltb (suc (suc (suc (suc n)))) 4 ≡ false
    long n = ground arith

pub read_line-client_text :
    (st : StatusResponse) (c : ConnectedClient)
    → IsPlainClient c
    → read_line (client_list, st) (client_text c)
      ≡ ok (client_list, record st { clients = st.clients ++ (plain_client c ∷ []) })
unfolding client_text read_fields
read_line-client_text st c h =
    read_line-comma (client_list, st) c.common_name _ h.0
    ∙ rw (split-client_text c h) (
        rw
          (read_client-fields c (split b',' c.connected_since) h.2 h.3
            (split-IsCut b',' c.connected_since))
          refl)

pub read_line-route_text :
    (st : StatusResponse) (r : RoutingEntry)
    → IsPlainRoute r
    → read_line (routing_table, st) (route_text r)
      ≡ ok (routing_table, record st { routes = st.routes ++ (plain_route r ∷ []) })
unfolding route_text read_fields
read_line-route_text st r h =
    read_line-comma (routing_table, st) r.virtual_address _ h.0
    ∙ rw (split-route_text r h)
        (rw (h.1, read_route-fields r (split b',' r.last_ref) (split-IsCut b',' r.last_ref)) refl)
