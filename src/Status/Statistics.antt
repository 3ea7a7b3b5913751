-- ===== src/Status/Statistics.antt =====
-- `ClientStatistics` and `parse_client_statistics` of openvpn-mgmt-codec/src/status.rs.
use Prim.Native.String.{String}
use openvpn_mgmt_codec.Prelude.{
  ℕ, Bool, true, false, ◌||◌, not, List, [], ◌∷◌, Option, none, some, if◌then◌else◌,
}
use openvpn_mgmt_codec.Prelude.Results.{Result, ok, err, ◌>>=◌}
use openvpn_mgmt_codec.Text.{Str, codes, str_eq, starts_with, split_once}
use openvpn_mgmt_codec.Status.{ParseStatusError, missing_statistics_key, parse_u64}

pub record ClientStatistics : Type 0 where
  pub tun_tap_read_bytes : ℕ
  pub tun_tap_write_bytes : ℕ
  pub tcp_udp_read_bytes : ℕ
  pub tcp_udp_write_bytes : ℕ
  pub auth_read_bytes : ℕ
  pub pre_compress_bytes : Option ℕ
  pub post_compress_bytes : Option ℕ
  pub pre_decompress_bytes : Option ℕ
  pub post_decompress_bytes : Option ℕ

-- The loop's variables.
pub record Progress : Type 0 where
  pub stats : ClientStatistics
  pub found_tun_read : Bool
  pub found_tun_write : Bool
  pub found_tcp_read : Bool
  pub found_tcp_write : Bool
  pub found_auth_read : Bool

abbrev pub start : Progress
start = record {
  stats = record {
    tun_tap_read_bytes = 0;
    tun_tap_write_bytes = 0;
    tcp_udp_read_bytes = 0;
    tcp_udp_write_bytes = 0;
    auth_read_bytes = 0;
    pre_compress_bytes = none;
    post_compress_bytes = none;
    pre_decompress_bytes = none;
    post_decompress_bytes = none;
  };
  found_tun_read = false;
  found_tun_write = false;
  found_tcp_read = false;
  found_tcp_write = false;
  found_auth_read = false;
}

abbrev set {ℓ} : {A : Type ℓ} → Str → String → (ℕ → A) → Result ParseStatusError A
set val field f = parse_u64 val field >>= λ n. ok (f n)

-- The `match key`.
unfoldable pub set_key : Progress → Str → Str → Result ParseStatusError Progress
set_key p key val =
    let s = p.stats in
    if str_eq key (codes "TUN/TAP read bytes")
    then set val "tun_tap_read_bytes"
        (λ n. record p { stats = record s { tun_tap_read_bytes = n }; found_tun_read = true })
    else if str_eq key (codes "TUN/TAP write bytes")
    then set val "tun_tap_write_bytes"
        (λ n. record p { stats = record s { tun_tap_write_bytes = n }; found_tun_write = true })
    else if str_eq key (codes "TCP/UDP read bytes")
    then set val "tcp_udp_read_bytes"
        (λ n. record p { stats = record s { tcp_udp_read_bytes = n }; found_tcp_read = true })
    else if str_eq key (codes "TCP/UDP write bytes")
    then set val "tcp_udp_write_bytes"
        (λ n. record p { stats = record s { tcp_udp_write_bytes = n }; found_tcp_write = true })
    else if str_eq key (codes "Auth read bytes")
    then set val "auth_read_bytes"
        (λ n. record p { stats = record s { auth_read_bytes = n }; found_auth_read = true })
    else if str_eq key (codes "pre-compress bytes")
    then set val "pre_compress_bytes"
        (λ n. record p { stats = record s { pre_compress_bytes = some n } })
    else if str_eq key (codes "post-compress bytes")
    then set val "post_compress_bytes"
        (λ n. record p { stats = record s { post_compress_bytes = some n } })
    else if str_eq key (codes "pre-decompress bytes")
    then set val "pre_decompress_bytes"
        (λ n. record p { stats = record s { pre_decompress_bytes = some n } })
    else if str_eq key (codes "post-decompress bytes")
    then set val "post_decompress_bytes"
        (λ n. record p { stats = record s { post_decompress_bytes = some n } })
    else ok p

unfoldable pub is_heading : Str → Bool
is_heading line = str_eq line (codes "OpenVPN STATISTICS") || starts_with (codes "Updated,") line

-- One line of the loop.
unfoldable pub read_line : Progress → Str → Result ParseStatusError Progress
read_line p line =
    let keyed : Result ParseStatusError Progress = elim (split_once b',' line) [
      | none ↦ ok p
      | some (key, val) ↦ set_key p key val
    ] in
    if is_heading line then ok p else keyed

unfoldable pub read_lines : Progress → List Str → Result ParseStatusError Progress
read_lines p [] = ok p
read_lines p (line ∷ lines) = do p' ← read_line p line; read_lines p' lines

-- The keys that must have been there.
unfoldable pub check_found : Progress → Result ParseStatusError ClientStatistics
check_found p =
    if not p.found_tun_read
    then err (missing_statistics_key "TUN/TAP read bytes")
    else if not p.found_tun_write
    then err (missing_statistics_key "TUN/TAP write bytes")
    else if not p.found_tcp_read
    then err (missing_statistics_key "TCP/UDP read bytes")
    else if not p.found_tcp_write
    then err (missing_statistics_key "TCP/UDP write bytes")
    else if not p.found_auth_read
    then err (missing_statistics_key "Auth read bytes")
    else ok p.stats

unfoldable pub parse_client_statistics : List Str → Result ParseStatusError ClientStatistics
parse_client_statistics lines = read_lines start lines >>= check_found
