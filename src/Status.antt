-- ===== src/Status.antt =====
-- openvpn-mgmt-codec/src/status.rs: the status of a server, in its three formats, and the statistics
-- of a client. A `UtcTimestamp` is its number of seconds.
pub mod Legacy
pub mod Tagged
pub mod Statistics
pub mod Formats
mod Rows
mod LegacyLaws
pub mod LegacyReadback
pub mod Readback
pub mod Printed
use Prim.Native.String.{String}
use openvpn_mgmt_codec.Prelude.{
  ℕ, Bool, true, false, ◌||◌, List, [], ◌∷◌, Option, none, some, if◌then◌else◌,
}
use openvpn_mgmt_codec.Prelude.Results.{Result, ok, err}
use openvpn_mgmt_codec.Text.{Str, codes, str_eq, is_empty, starts_with}
use openvpn_mgmt_codec.Text.Decimal.{parse, max_u64}
use openvpn_mgmt_codec.Responses.{ok_or}

pub record GlobalStats : Type 0 where
  pub max_bcast_mcast_queue_length : Option ℕ
  pub dco_enabled : Option Bool

pub record ConnectedClient : Type 0 where
  pub common_name : Str
  pub real_address : Str
  pub virtual_address : Str
  pub virtual_ipv6 : Str
  pub bytes_in : ℕ
  pub bytes_out : ℕ
  pub connected_since : Str
  pub connected_since_t : Option ℕ
  pub username : Option Str
  pub cid : Option ℕ
  pub peer_id : Option ℕ
  pub cipher : Option Str

pub record RoutingEntry : Type 0 where
  pub virtual_address : Str
  pub common_name : Str
  pub real_address : Str
  pub last_ref : Str
  pub last_ref_t : Option ℕ

pub record StatusResponse : Type 0 where
  pub title : Option Str
  pub timestamp : Option ℕ
  pub updated : Option Str
  pub clients : List ConnectedClient
  pub routes : List RoutingEntry
  pub global_stats : GlobalStats

pub data ParseStatusError : Type 0 where
  invalid_integer : String → Str → ParseStatusError
  client_list_too_few_fields routing_table_too_few_fields : ℕ → ParseStatusError
  missing_statistics_key : String → ParseStatusError

abbrev pub empty_status : StatusResponse
empty_status = record {
  title = none;
  timestamp = none;
  updated = none;
  clients = [];
  routes = [];
  global_stats = record { max_bcast_mcast_queue_length = none; dco_enabled = none };
}

-- A line that shows tabs as the separator.
unfoldable pub is_tabbed : Str → Bool
is_tabbed line =
    starts_with (codes "TITLE\t") line
    || starts_with (codes "TIME\t") line
    || starts_with (codes "HEADER\t") line
    || starts_with (codes "CLIENT_LIST\t") line
    || starts_with (codes "ROUTING_TABLE\t") line
    || starts_with (codes "GLOBAL_STATS\t") line

unfoldable pub detect_separator : List Str → ℕ
detect_separator [] = b','
detect_separator (line ∷ lines) =
    let later = detect_separator lines in if is_tabbed line then b'\t' else later

unfoldable pub parse_u64 : Str → String → Result ParseStatusError ℕ
parse_u64 s field = ok_or (parse max_u64 s) (invalid_integer field s)

unfoldable pub parse_optional_u64 : Str → Option ℕ
parse_optional_u64 s = if is_empty s || str_eq s (codes "UNDEF") then none else parse max_u64 s

abbrev pub parse_optional_timestamp : Str → Option ℕ
parse_optional_timestamp = parse_optional_u64

unfoldable pub parse_optional_string : Str → Option Str
parse_optional_string s = if is_empty s || str_eq s (codes "UNDEF") then none else some s

unfoldable pub parse_flag : Str → Option Bool
parse_flag value =
    if str_eq value (codes "1")
    then some true
    else if str_eq value (codes "0")
    then some false
    else none

unfoldable pub apply_global_stat : GlobalStats → Str → Str → GlobalStats
apply_global_stat stats key value =
    if str_eq key (codes "Max bcast/mcast queue length")
    then record stats { max_bcast_mcast_queue_length = parse max_u64 value }
    else if str_eq key (codes "dco_enabled")
    then record stats { dco_enabled = parse_flag value }
    else stats
