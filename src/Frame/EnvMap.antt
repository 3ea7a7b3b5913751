-- ===== src/Frame/EnvMap.antt =====
-- `BTreeMap<String, String>` as an association list in ascending order of its keys.
use openvpn_mgmt_codec.Prelude.{
  ◌+◌, ◌≤◌, ◌≡◌, refl, Bool, true, false, List, [], ◌∷◌, Option, none, some, arith, ltb, ◌==◌,
  if◌then◌else◌, length,
}
use openvpn_mgmt_codec.Text.{Str, str_eq}
use openvpn_mgmt_codec.Text.Laws.{str_eq_iff}

abbrev pub EnvMap : Type 0
EnvMap = List (Str × Str)

-- The order of `str`: that of its bytes is that of its code points.
unfoldable pub str_lt : Str → Str → Bool
str_lt [] [] = false
str_lt [] (y ∷ ys) = true
str_lt (x ∷ xs) [] = false
str_lt (x ∷ xs) (y ∷ ys) = if x == y then str_lt xs ys else ltb x y

unfoldable pub get : Str → EnvMap → Option Str
unfolding str_eq
get k [] = none
get k ((j, w) ∷ m) = if str_eq j k then some w else get k m

unfoldable pub insert : Str → Str → EnvMap → EnvMap
unfolding str_eq str_lt
insert k v [] = (k, v) ∷ []
insert k v ((j, w) ∷ m) =
    if str_eq j k
    then (k, v) ∷ m
    else if str_lt k j
    then (k, v) ∷ (j, w) ∷ m
    else (j, w) ∷ insert k v m

-- After an entry is inserted, its key has the new value, and every other key the value that it
-- had.
pub get-insert :
    (k j v : Str) (m : EnvMap) → get j (insert k v m) ≡ (if str_eq k j then some v else get j m)
unfolding get insert
get-insert k j v [] = refl
get-insert k j v ((i, w) ∷ m) =
    ground (arith, str_eq_iff i k, str_eq_iff i j, str_eq_iff k j, get-insert k j v m)

pub length-insert : (k v : Str) (m : EnvMap) → length (insert k v m) ≤ length m + 1
unfolding insert
length-insert k v [] = omega arith
length-insert k v ((j, w) ∷ m) = ground (arith, length-insert k v m)
