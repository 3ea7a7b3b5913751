-- ===== src/Responses.antt =====
-- openvpn-mgmt-codec/src/parsed_response.rs: the payloads of `pid`, `load-stats` and `hold`. The
-- errors hold what the source's hold; `field` names stand as literals.
pub mod Version
pub mod States
pub mod Laws
pub mod StateLaws
pub mod VersionLaws
use Prim.Native.String.{String}
use openvpn_mgmt_codec.Prelude.{
  ℕ, Bool, true, false, List, [], ◌∷◌, Option, none, some, if◌then◌else◌,
}
use openvpn_mgmt_codec.Prelude.Results.{Result, ok, err, ◌>>=◌}
use openvpn_mgmt_codec.Text.{Str, codes, str_eq, strip_prefix, split_once}
use openvpn_mgmt_codec.Text.Decimal.{parse, max_u32, max_u64}
use openvpn_mgmt_codec.Command.Parse.Arguments.{split}

pub record LoadStats : Type 0 where
  pub nclients : ℕ
  pub bytesin : ℕ
  pub bytesout : ℕ

pub data ParseResponseError : Type 0 where
  missing_pid_prefix missing_hold_prefix invalid_hold_value : Str → ParseResponseError
  invalid_integer : String → Str → ParseResponseError
  missing_field : String → ParseResponseError
  state_too_few_fields : ℕ → ParseResponseError
  invalid_timestamp invalid_state_name : Str → ParseResponseError
  empty_state_history : ParseResponseError
  invalid_management_version : Str → ParseResponseError

-- `Option::ok_or`
abbrev pub ok_or {ℓ κ} : {E : Type κ} {A : Type ℓ} → Option A → E → Result E A
ok_or none e = err e
ok_or (some a) e = ok a

unfoldable pub parse_pid : Str → Result ParseResponseError ℕ
parse_pid payload = do
  val ← ok_or (strip_prefix (codes "pid=") payload) (missing_pid_prefix payload)
  ok_or (parse max_u32 val) (invalid_integer "pid" val)

-- The `match` on the value.
unfoldable pub hold_flag : Str → Result ParseResponseError Bool
hold_flag val =
    if str_eq val (codes "1")
    then ok true
    else if str_eq val (codes "0")
    then ok false
    else err (invalid_hold_value val)

unfoldable pub parse_hold : Str → Result ParseResponseError Bool
parse_hold payload = do
  val ← ok_or (strip_prefix (codes "hold=") payload) (missing_hold_prefix payload)
  hold_flag val

-- The three values that the loop of `parse_load_stats` has read so far.
pub record Partial : Type 0 where
  pub nclients : Option ℕ
  pub bytesin : Option ℕ
  pub bytesout : Option ℕ

abbrev pub nothing_read : Partial
nothing_read = record { nclients = none; bytesin = none; bytesout = none }

-- The closure `parsed`.
unfoldable pub parsed : String → Str → Result ParseResponseError ℕ
parsed field val = ok_or (parse max_u64 val) (invalid_integer field val)

-- The `match` on the key of one part.
unfoldable pub set_field : Partial → Str → Str → Result ParseResponseError Partial
set_field read key val =
    if str_eq key (codes "nclients")
    then (parsed "nclients" val >>= λ n. ok (record read { nclients = some n }))
    else if str_eq key (codes "bytesin")
    then (parsed "bytesin" val >>= λ n. ok (record read { bytesin = some n }))
    else if str_eq key (codes "bytesout")
    then (parsed "bytesout" val >>= λ n. ok (record read { bytesout = some n }))
    else ok read

-- A part without `=` is passed over.
unfoldable pub read_part : Partial → Str → Result ParseResponseError Partial
read_part read part = elim (split_once b'=' part) [
  | none ↦ ok read
  | some (key, val) ↦ set_field read key val
]

unfoldable pub read_parts : Partial → List Str → Result ParseResponseError Partial
read_parts read [] = ok read
read_parts read (part ∷ parts) = do read' ← read_part read part; read_parts read' parts

unfoldable pub load_stats : Partial → Result ParseResponseError LoadStats
load_stats read = do
  clients ← ok_or read.nclients (missing_field "nclients")
  received ← ok_or read.bytesin (missing_field "bytesin")
  sent ← ok_or read.bytesout (missing_field "bytesout")
  ok (record { nclients = clients; bytesin = received; bytesout = sent })

unfoldable pub parse_load_stats : Str → Result ParseResponseError LoadStats
parse_load_stats payload = read_parts nothing_read (split b',' payload) >>= load_stats
