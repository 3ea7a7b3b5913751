-- ===== src/Status/Printed.antt =====
-- The statistics of a client (openvpn-mgmt-codec/src/status.rs), printed and read back.
use Prim.Native.String.{String}
use openvpn_mgmt_codec.Prelude.{
  ℕ, ◌≤◌, ◌≡◌, refl, sym, ap, ◌∙◌, true, List, [], ◌∷◌, ◌++◌, Option, none, some, append-nil,
}
use openvpn_mgmt_codec.Prelude.Results.{ok, ◌>>=◌}
use openvpn_mgmt_codec.Text.{Str, codes, str_eq, strip_prefix, split_once_by}
use openvpn_mgmt_codec.Text.Decimal.{to_string, parse-to_string, max_u64}
use openvpn_mgmt_codec.Status.{parse_u64}
use openvpn_mgmt_codec.Status.Statistics.{
  ClientStatistics, Progress, start, set_key, is_heading, read_line, read_lines, check_found,
  parse_client_statistics,
}

abbrev counter_line : String → ℕ → Str
counter_line key n = codes key ++ (b',' ∷ to_string n)

abbrev optional_line : String → Option ℕ → List Str
optional_line key none = []
optional_line key (some n) = counter_line key n ∷ []

-- The response that says the statistics: the heading, the five counters and the others that are there.
unfoldable pub statistics_lines : Str → ClientStatistics → List Str
statistics_lines updated s =
    codes "OpenVPN STATISTICS"
      ∷ (codes "Updated," ++ updated)
      ∷ counter_line "TUN/TAP read bytes" s.tun_tap_read_bytes
      ∷ counter_line "TUN/TAP write bytes" s.tun_tap_write_bytes
      ∷ counter_line "TCP/UDP read bytes" s.tcp_udp_read_bytes
      ∷ counter_line "TCP/UDP write bytes" s.tcp_udp_write_bytes
      ∷ counter_line "Auth read bytes" s.auth_read_bytes
      ∷ optional_line "pre-compress bytes" s.pre_compress_bytes
    ++ (optional_line "post-compress bytes" s.post_compress_bytes
        ++ (optional_line "pre-decompress bytes" s.pre_decompress_bytes
            ++ optional_line "post-decompress bytes" s.post_decompress_bytes))

abbrev Fits : Option ℕ → Type 0
Fits none = Unit
Fits (some n) = n ≤ max_u64

-- Every counter is a `u64`.
abbrev pub IsBounded : ClientStatistics → Type 0
IsBounded s =
    (s.tun_tap_read_bytes ≤ max_u64)
    × (s.tun_tap_write_bytes ≤ max_u64)
    × (s.tcp_udp_read_bytes ≤ max_u64)
    × (s.tcp_udp_write_bytes ≤ max_u64)
    × (s.auth_read_bytes ≤ max_u64)
    × Fits s.pre_compress_bytes
    × Fits s.post_compress_bytes
    × Fits s.pre_decompress_bytes
    × Fits s.post_decompress_bytes

module _ (p : Progress) (n : ℕ) (h : n ≤ max_u64) (rest : List Str) where
  read_tun_read :
      read_lines p (counter_line "TUN/TAP read bytes" n ∷ rest)
      ≡ read_lines
          (record p { stats = record (p.stats) { tun_tap_read_bytes = n }; found_tun_read = true })
          rest
  unfolding read_lines read_line is_heading set_key split_once_by str_eq strip_prefix parse_u64
  read_tun_read = rw (parse-to_string max_u64 n h) refl

  read_tun_write :
      read_lines p (counter_line "TUN/TAP write bytes" n ∷ rest)
      ≡ read_lines
          (record p {
            stats = record (p.stats) { tun_tap_write_bytes = n };
            found_tun_write = true;
          })
          rest
  unfolding read_lines read_line is_heading set_key split_once_by str_eq strip_prefix parse_u64
  read_tun_write = rw (parse-to_string max_u64 n h) refl

  read_tcp_read :
      read_lines p (counter_line "TCP/UDP read bytes" n ∷ rest)
      ≡ read_lines
          (record p { stats = record (p.stats) { tcp_udp_read_bytes = n }; found_tcp_read = true })
          rest
  unfolding read_lines read_line is_heading set_key split_once_by str_eq strip_prefix parse_u64
  read_tcp_read = rw (parse-to_string max_u64 n h) refl

  read_tcp_write :
      read_lines p (counter_line "TCP/UDP write bytes" n ∷ rest)
      ≡ read_lines
          (record p {
            stats = record (p.stats) { tcp_udp_write_bytes = n };
            found_tcp_write = true;
          })
          rest
  unfolding read_lines read_line is_heading set_key split_once_by str_eq strip_prefix parse_u64
  read_tcp_write = rw (parse-to_string max_u64 n h) refl

  read_auth_read :
      read_lines p (counter_line "Auth read bytes" n ∷ rest)
      ≡ read_lines
          (record p { stats = record (p.stats) { auth_read_bytes = n }; found_auth_read = true })
          rest
  unfolding read_lines read_line is_heading set_key split_once_by str_eq strip_prefix parse_u64
  read_auth_read = rw (parse-to_string max_u64 n h) refl

  read_pre_compress :
      read_lines p (counter_line "pre-compress bytes" n ∷ rest)
      ≡ read_lines (record p { stats = record (p.stats) { pre_compress_bytes = some n } }) rest
  unfolding read_lines read_line is_heading set_key split_once_by str_eq strip_prefix parse_u64
  read_pre_compress = rw (parse-to_string max_u64 n h) refl

  read_post_compress :
      read_lines p (counter_line "post-compress bytes" n ∷ rest)
      ≡ read_lines (record p { stats = record (p.stats) { post_compress_bytes = some n } }) rest
  unfolding read_lines read_line is_heading set_key split_once_by str_eq strip_prefix parse_u64
  read_post_compress = rw (parse-to_string max_u64 n h) refl

  read_pre_decompress :
      read_lines p (counter_line "pre-decompress bytes" n ∷ rest)
      ≡ read_lines (record p { stats = record (p.stats) { pre_decompress_bytes = some n } }) rest
  unfolding read_lines read_line is_heading set_key split_once_by str_eq strip_prefix parse_u64
  read_pre_decompress = rw (parse-to_string max_u64 n h) refl

  read_post_decompress :
      read_lines p (counter_line "post-decompress bytes" n ∷ rest)
      ≡ read_lines (record p { stats = record (p.stats) { post_decompress_bytes = some n } }) rest
  unfolding read_lines read_line is_heading set_key split_once_by str_eq strip_prefix parse_u64
  read_post_decompress = rw (parse-to_string max_u64 n h) refl

-- All five counters have been read, and the given ones of the others.
abbrev found : ClientStatistics → Option ℕ → Option ℕ → Option ℕ → Option ℕ → Progress
found s a b c d = record {
  stats = record s {
    pre_compress_bytes = a;
    post_compress_bytes = b;
    pre_decompress_bytes = c;
    post_decompress_bytes = d;
  };
  found_tun_read = true;
  found_tun_write = true;
  found_tcp_read = true;
  found_tcp_write = true;
  found_auth_read = true;
}

module _ (s : ClientStatistics) (rest : List Str) where
  optional_pre_compress :
      (o : Option ℕ)
      → Fits o
      → read_lines (found s none none none none) (optional_line "pre-compress bytes" o ++ rest)
        ≡ read_lines (found s o none none none) rest
  optional_pre_compress none h = refl
  optional_pre_compress (some n) h = read_pre_compress (found s none none none none) n h rest

  optional_post_compress :
      (a : Option ℕ) (o : Option ℕ)
      → Fits o
      → read_lines (found s a none none none) (optional_line "post-compress bytes" o ++ rest)
        ≡ read_lines (found s a o none none) rest
  optional_post_compress a none h = refl
  optional_post_compress a (some n) h = read_post_compress (found s a none none none) n h rest

  optional_pre_decompress :
      (a b : Option ℕ) (o : Option ℕ)
      → Fits o
      → read_lines (found s a b none none) (optional_line "pre-decompress bytes" o ++ rest)
        ≡ read_lines (found s a b o none) rest
  optional_pre_decompress a b none h = refl
  optional_pre_decompress a b (some n) h = read_pre_decompress (found s a b none none) n h rest

  optional_post_decompress :
      (a b c : Option ℕ) (o : Option ℕ)
      → Fits o
      → read_lines (found s a b c none) (optional_line "post-decompress bytes" o ++ rest)
        ≡ read_lines (found s a b c o) rest
  optional_post_decompress a b c none h = refl
  optional_post_decompress a b c (some n) h = read_post_decompress (found s a b c none) n h rest

read_heading :
    (updated : Str) (rest : List Str)
    → read_lines start (codes "OpenVPN STATISTICS" ∷ (codes "Updated," ++ updated) ∷ rest)
      ≡ read_lines start rest
unfolding read_lines read_line is_heading str_eq strip_prefix
read_heading updated rest = refl

read_counters :
    (s : ClientStatistics) (rest : List Str)
    → IsBounded s
    → read_lines start (
        counter_line "TUN/TAP read bytes" s.tun_tap_read_bytes
        ∷ counter_line "TUN/TAP write bytes" s.tun_tap_write_bytes
        ∷ counter_line "TCP/UDP read bytes" s.tcp_udp_read_bytes
        ∷ counter_line "TCP/UDP write bytes" s.tcp_udp_write_bytes
        ∷ counter_line "Auth read bytes" s.auth_read_bytes
        ∷ rest)
      ≡ read_lines (found s none none none none) rest
read_counters s rest (h1, h2, h3, h4, h5, h6, h7, h8, h9) =
    read_tun_read start _ h1 _
    ∙ (read_tun_write _ _ h2 _
        ∙ (read_tcp_read _ _ h3 _ ∙ (read_tcp_write _ _ h4 _ ∙ read_auth_read _ _ h5 rest)))

read_optionals :
    (s : ClientStatistics)
    → IsBounded s
    → read_lines (found s none none none none) (
        optional_line "pre-compress bytes" s.pre_compress_bytes
        ++ (optional_line "post-compress bytes" s.post_compress_bytes
            ++ (optional_line "pre-decompress bytes" s.pre_decompress_bytes
                ++ optional_line "post-decompress bytes" s.post_decompress_bytes)))
      ≡ ok (
          found s s.pre_compress_bytes s.post_compress_bytes s.pre_decompress_bytes
            s.post_decompress_bytes)
unfolding read_lines
read_optionals s (h1, h2, h3, h4, h5, h6, h7, h8, h9) =
    let last = optional_line "post-decompress bytes" s.post_decompress_bytes in
    optional_pre_compress s _ s.pre_compress_bytes h6
    ∙ (optional_post_compress s _ s.pre_compress_bytes s.post_compress_bytes h7
        ∙ (optional_pre_decompress s _ s.pre_compress_bytes s.post_compress_bytes
              s.pre_decompress_bytes h8
            ∙ (ap
                  (read_lines (
                    found s s.pre_compress_bytes s.post_compress_bytes s.pre_decompress_bytes none))
                  (sym (append-nil last))
                ∙ optional_post_decompress s [] s.pre_compress_bytes s.post_compress_bytes
                    s.pre_decompress_bytes s.post_decompress_bytes h9)))

-- The statistics of a client, each number within 64 bits and any of the four optional counters
-- there or not, are read back from the response that says them.
pub parse_client_statistics-statistics_lines :
    (updated : Str) (s : ClientStatistics)
    → IsBounded s
    → parse_client_statistics (statistics_lines updated s) ≡ ok s
unfolding parse_client_statistics statistics_lines check_found
parse_client_statistics-statistics_lines updated s h =
    ap (λ r. r >>= check_found)
      (read_heading updated _ ∙ (read_counters s _ h ∙ read_optionals s h))
