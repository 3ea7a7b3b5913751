-- ===== src/Responses/Laws.antt =====
-- The payloads of openvpn-mgmt-codec/src/parsed_response.rs, printed and read back.
use openvpn_mgmt_codec.Prelude.{
  ℕ, ◌≤◌, ◌≡◌, refl, ap, ◌∙◌, List, [], ◌∷◌, ◌++◌, Option, none, some, if◌then◌else◌, All,
  All-append, Lacks, ◌≢◌, arith, Bool-cases, inl, inr,
}
use openvpn_mgmt_codec.Prelude.Results.{Result, ok, err}
use openvpn_mgmt_codec.Text.{Str, codes, str_eq, split_once_by, join}
use openvpn_mgmt_codec.Text.Laws.{str_eq_iff, split_once-append, strip_prefix-append}
use openvpn_mgmt_codec.Text.Decimal.{
  max_u32, max_u64, to_string, to_string-IsDigit, parse-to_string, IsDigit,
}
use openvpn_mgmt_codec.Command.Parse.Arguments.{split}
use openvpn_mgmt_codec.Responses.{
  parse_pid, parse_load_stats, read_parts, read_part, set_field, parsed, Partial, nothing_read,
  load_stats, LoadStats, ParseResponseError, missing_field,
}

pub split-append : (d : ℕ) (a b : Str) → Lacks d a → split d (a ++ (d ∷ b)) ≡ a ∷ split d b
unfolding split
split-append d [] b h = ground arith
split-append d (c ∷ a) b h = rw (split-append d a b h.1) (ground arith)

pub split-Lacks : (d : ℕ) (a : Str) → Lacks d a → split d a ≡ a ∷ []
unfolding split
split-Lacks d [] h = refl
split-Lacks d (c ∷ a) h = rw (split-Lacks d a h.1) (ground arith)

pub split-join :
    (d : ℕ) (s : Str) (ss : List Str) → All (Lacks d) (s ∷ ss) → split d (join d (s ∷ ss)) ≡ s ∷ ss
unfolding join
split-join d s [] h = split-Lacks d s h.0
split-join d s (t ∷ ss) h =
    split-append d s (join d (t ∷ ss)) h.0 ∙ ap (◌∷◌ s) (split-join d t ss h.1)

-- A printed number holds digits, so no other character.
pub digits-Lacks : (d : ℕ) → (IsDigit d → ⊥) → (s : Str) → All IsDigit s → Lacks d s
digits-Lacks d n [] h = tt
digits-Lacks d n (c ∷ s) h = (ground arith, digits-Lacks d n s h.1)

-- The pid that is printed is read back
pub parse_pid-to_string : (n : ℕ) → n ≤ max_u32 → parse_pid (codes "pid=" ++ to_string n) ≡ ok n
unfolding parse_pid
parse_pid-to_string n h =
    rw (strip_prefix-append (codes "pid=") (to_string n), parse-to_string max_u32 n h)

abbrev item_text : Str × ℕ → Str
item_text (key, n) = key ++ (b'=' ∷ to_string n)

unfoldable pub item_texts : List (Str × ℕ) → List Str
item_texts [] = []
item_texts (item ∷ items) = item_text item ∷ item_texts items

-- A payload of `key=number` items.
unfoldable pub stats_text : List (Str × ℕ) → Str
stats_text items = join b',' (item_texts items)

-- The last number with the key, or `prior`.
unfoldable pub latest : Str → Option ℕ → List (Str × ℕ) → Option ℕ
latest key prior [] = prior
latest key prior ((k, n) ∷ items) = latest key (if str_eq k key then some n else prior) items

abbrev pub IsItem : Str × ℕ → Type 0
IsItem (key, n) = Lacks b',' key × Lacks b'=' key × (n ≤ max_u64)

-- What is read after one more item.
abbrev stored : Partial → Str → ℕ → Partial
stored read key n = record {
  nclients = if str_eq key (codes "nclients") then some n else read.nclients;
  bytesin = if str_eq key (codes "bytesin") then some n else read.bytesin;
  bytesout = if str_eq key (codes "bytesout") then some n else read.bytesout;
}

set_field-item :
    (read : Partial) (key : Str) (n : ℕ)
    → n ≤ max_u64
    → set_field read key (to_string n) ≡ ok (stored read key n)
unfolding set_field parsed str_eq
set_field-item read key n h = elim (Bool-cases (str_eq key (codes "nclients"))) [
  | inl t ↦ rw ((str_eq_iff key (codes "nclients")).0 t, parse-to_string max_u64 n h) refl
  | inr f ↦ elim (Bool-cases (str_eq key (codes "bytesin"))) [
    | inl t ↦ rw ((str_eq_iff key (codes "bytesin")).0 t, parse-to_string max_u64 n h) refl
    | inr g ↦ elim (Bool-cases (str_eq key (codes "bytesout"))) [
      | inl t ↦ rw ((str_eq_iff key (codes "bytesout")).0 t, parse-to_string max_u64 n h) refl
      | inr k ↦ rw (f, g, k) refl
    ]
  ]
]

read_part-item :
    (read : Partial) (item : Str × ℕ)
    → IsItem item
    → read_part read (item_text item) ≡ set_field read item.0 (to_string item.1)
unfolding read_part
read_part-item read (key, n) h = rw (read_part, split_once-append b'=' key (to_string n) h.1) refl

read_parts-items :
    (read : Partial) (items : List (Str × ℕ))
    → All IsItem items
    → read_parts read (item_texts items)
      ≡ ok (record {
        nclients = latest (codes "nclients") read.nclients items;
        bytesin = latest (codes "bytesin") read.bytesin items;
        bytesout = latest (codes "bytesout") read.bytesout items;
      })
unfolding read_parts item_texts latest
read_parts-items read [] h = refl
read_parts-items read (item ∷ items) h =
    rw (read_part-item read item h.0, set_field-item read item.0 item.1 h.0.2)
      (read_parts-items (stored read item.0 item.1) items h.1)

item_text-Lacks : (item : Str × ℕ) → IsItem item → Lacks b',' (item_text item)
item_text-Lacks (key, n) h =
    All-append (λ c. c ≢ b',') key _ h.0
      (
        ground arith,
        digits-Lacks b',' (λ d. absurd (omega arith)) (to_string n) (to_string-IsDigit n),
      )

item_texts-Lacks : (items : List (Str × ℕ)) → All IsItem items → All (Lacks b',') (item_texts items)
unfolding item_texts
item_texts-Lacks [] h = tt
item_texts-Lacks (item ∷ items) h = (item_text-Lacks item h.0, item_texts-Lacks items h.1)

read_parts-split :
    (items : List (Str × ℕ))
    → All IsItem items
    → read_parts nothing_read (split b',' (stats_text items))
      ≡ read_parts nothing_read (item_texts items)
unfolding stats_text item_texts join split read_parts read_part split_once_by
read_parts-split [] h = refl
read_parts-split (item ∷ items) h =
    rw (split-join b',' (item_text item) (item_texts items) (item_texts-Lacks (item ∷ items) h))
      refl

-- The statistics of three numbers, or the first of them that is missing.
unfoldable pub stats_of : Option ℕ → Option ℕ → Option ℕ → Result ParseResponseError LoadStats
stats_of (some clients) (some received) (some sent) =
    ok (record { nclients = clients; bytesin = received; bytesout = sent })
stats_of none _ _ = err (missing_field "nclients")
stats_of (some clients) none _ = err (missing_field "bytesin")
stats_of (some clients) (some received) none = err (missing_field "bytesout")

load_stats-stats_of :
    (clients received sent : Option ℕ)
    → load_stats (record { nclients = clients; bytesin = received; bytesout = sent })
      ≡ stats_of clients received sent
unfolding load_stats stats_of
load_stats-stats_of (some clients) (some received) (some sent) = refl
load_stats-stats_of none received sent = refl
load_stats-stats_of (some clients) none sent = refl
load_stats-stats_of (some clients) (some received) none = refl

-- A payload of `key=number` items, in any order, with keys repeated, missing or unknown, no key
-- with a comma or `=` in it and each number within 64 bits, is parsed to the record of the last
-- number of each of `nclients`, `bytesin` and `bytesout`, or to the error for the first of
-- these that is missing.
pub parse_load_stats-latest :
    (items : List (Str × ℕ))
    → All IsItem items
    → parse_load_stats (stats_text items)
      ≡ stats_of
          (latest (codes "nclients") none items)
          (latest (codes "bytesin") none items)
          (latest (codes "bytesout") none items)
unfolding parse_load_stats
parse_load_stats-latest items h =
    rw (read_parts-split items h, read_parts-items nothing_read items h)
      (load_stats-stats_of (latest (codes "nclients") none items)
        (latest (codes "bytesin") none items) (latest (codes "bytesout") none items))
