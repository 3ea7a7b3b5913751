-- ===== src/Tests/Status.antt =====
-- The status parsers and the challenges: concrete runs.
use openvpn_mgmt_codec.Prelude.{
  ◌+◌, ◌-◌, ◌≡◌, refl, ap, List, [], ◌∷◌, ◌++◌, none, some, arith, All, Lacks, false, inl, inr,
}
use openvpn_mgmt_codec.Prelude.Results.{ok}
use openvpn_mgmt_codec.Text.{Str, Bytes, codes, str_eq}
use openvpn_mgmt_codec.Text.Decimal.{to_string, digits}
use openvpn_mgmt_codec.Text.Utf8.{as_bytes}
use openvpn_mgmt_codec.Message.Types.{dynamic_challenge}
use openvpn_mgmt_codec.Message.Parse.Password.{parse_password_notification}
use openvpn_mgmt_codec.Status.{StatusResponse, ConnectedClient, RoutingEntry}
use openvpn_mgmt_codec.Status.Tagged.{parse_status}
use openvpn_mgmt_codec.Status.Statistics.{ClientStatistics, parse_client_statistics}
use openvpn_mgmt_codec.Status.Formats.{IsRow, lines_of, parse_status-lines_of}
use openvpn_mgmt_codec.Status.Readback.{status_rows, parse_status-status_rows}
use openvpn_mgmt_codec.Status.LegacyReadback.{legacy_lines, plain_status, parse_status-legacy_lines}
use openvpn_mgmt_codec.Status.Printed.{statistics_lines, parse_client_statistics-statistics_lines}
use openvpn_mgmt_codec.Crv1.{
  Engine, Crv1Challenge, Crv1Response, challenge_string, response_string, from_str,
}
use openvpn_mgmt_codec.Crv1.Laws.{
  from_str-response_string, parse_password_notification-challenge_string,
}

abbrev client : ConnectedClient
client = record {
  common_name = codes "peer1";
  real_address = codes "203.0.113.10:52841";
  virtual_address = codes "10.8.0.6";
  virtual_ipv6 = [];
  bytes_in = 7;
  bytes_out = 9;
  connected_since = codes "2024-03-21 09:15:00";
  connected_since_t = some 5;
  username = none;
  cid = some 0;
  peer_id = some 0;
  cipher = some (codes "AES-256-GCM");
}

abbrev route : RoutingEntry
route = record {
  virtual_address = codes "10.8.0.6";
  common_name = codes "peer1";
  real_address = codes "203.0.113.10:52841";
  last_ref = codes "2024-03-21 14:29:50";
  last_ref_t = some 6;
}

abbrev server : StatusResponse
server = record {
  title = some (codes "OpenVPN 2.6.8");
  timestamp = some 8;
  updated = some (codes "2024-03-21 14:30:00");
  clients = client ∷ [];
  routes = route ∷ [];
  global_stats = record { max_bcast_mcast_queue_length = some 3; dco_enabled = some false };
}

abbrev server_rows : List (List Str)
server_rows = status_rows (codes "OpenVPN 2.6.8") (codes "2024-03-21 14:30:00") server

server_rows-IsRow : All IsRow server_rows
unfolding status_rows str_eq to_string digits
server_rows-IsRow = (
  (omega arith, omega arith, inl (omega arith)),
  (
    (omega arith, omega arith, inl (omega arith)),
    (
      (omega arith, omega arith, inr refl),
      (
        (omega arith, omega arith, inr refl),
        (
          (omega arith, omega arith, inl (omega arith)),
          ((omega arith, omega arith, inl (omega arith)), tt),
        ),
      ),
    ),
  ),
)

parse_status-status_rows_example :
    (parse_status (lines_of b',' server_rows) ≡ ok server)
    × (parse_status (lines_of b'\t' server_rows) ≡ ok server)
unfolding str_eq
parse_status-status_rows_example =
    parse_status-status_rows (codes "OpenVPN 2.6.8") (codes "2024-03-21 14:30:00") server
      (
        omega arith,
        ((omega arith, omega arith, omega arith, tt, omega arith, omega arith, (refl, refl)), tt),
        (omega arith, tt),
        omega arith,
      )
      server_rows-IsRow

abbrev title_rows : List (List Str)
title_rows = (codes "TIME" ∷ codes "now" ∷ []) ∷ []

parse_status-lines_of_example :
    parse_status (lines_of b',' ((codes "TITLE" ∷ codes "OpenVPN 2.6.8" ∷ []) ∷ title_rows))
    ≡ parse_status (lines_of b'\t' ((codes "TITLE" ∷ codes "OpenVPN 2.6.8" ∷ []) ∷ title_rows))
parse_status-lines_of_example = parse_status-lines_of (codes "OpenVPN 2.6.8") [] title_rows (
  (omega arith, omega arith, inl (omega arith)),
  ((omega arith, omega arith, inl (omega arith)), tt),
)

abbrev counters : ClientStatistics
counters = record {
  tun_tap_read_bytes = 1;
  tun_tap_write_bytes = 2;
  tcp_udp_read_bytes = 3;
  tcp_udp_write_bytes = 4;
  auth_read_bytes = 0;
  pre_compress_bytes = none;
  post_compress_bytes = some 5;
  pre_decompress_bytes = none;
  post_decompress_bytes = none;
}

parse_client_statistics-statistics_lines_example :
    parse_client_statistics (statistics_lines (codes "now") counters) ≡ ok counters
parse_client_statistics-statistics_lines_example =
    parse_client_statistics-statistics_lines (codes "now") counters
      (omega arith, omega arith, omega arith, omega arith, omega arith, tt, omega arith, tt, tt)

-- A stand-in for base64: each byte as the character 64 places on.
shift : Bytes → Str
shift [] = []
shift (b ∷ bs) = (b + 64) ∷ shift bs

unshift : Str → Bytes
unshift [] = []
unshift (c ∷ s) = (c - 64) ∷ unshift s

unshift-shift : (b : Bytes) → unshift (shift b) ≡ b
unfolding shift unshift
unshift-shift [] = refl
unshift-shift (b ∷ bs) = rw (unshift-shift bs) (ap (λ x. x ∷ bs) (omega arith))

shift-Lacks : (b : Bytes) → Lacks b':' (shift b)
unfolding shift
shift-Lacks [] = tt
shift-Lacks (b ∷ bs) = (omega arith, shift-Lacks bs)

abbrev engine : Engine (Unit {0})
engine = record {
  encode = shift;
  decode = λ s. ok (unshift s);
  decode-encode = λ b. ap ok (unshift-shift b);
  encode-Lacks = shift-Lacks;
}

abbrev answer : Crv1Response
answer = record { flags = []; state_id = codes "abc"; username = []; response = codes "12:34" }

from_str-response_string_example : from_str engine (response_string engine answer) ≡ ok answer
from_str-response_string_example = from_str-response_string engine answer (tt) (omega arith) tt

abbrev challenge : Crv1Challenge
challenge = record {
  flags = codes "R,E";
  state_id = codes "abc";
  username = codes "me";
  challenge_text = codes "Code?";
}

parse_password_notification-challenge_string_example :
    parse_password_notification
      (codes "Verification Failed: 'Auth' ['" ++ (challenge_string engine challenge ++ codes "']"))
    ≡ some (
        dynamic_challenge
          (codes "R,E")
          (shift (as_bytes (codes "abc")))
          (shift (as_bytes (codes "me")))
          (codes "Code?"))
parse_password_notification-challenge_string_example =
    parse_password_notification-challenge_string engine challenge (omega arith)

-- The date of the connection has commas.
abbrev legacy : StatusResponse
legacy = record server {
  clients = record client { connected_since = codes "Thu, Mar 21, 2024" } ∷ [];
}

parse_status-legacy_lines_example :
    parse_status (legacy_lines (codes "now") legacy) ≡ ok (plain_status (codes "now") legacy)
unfolding str_eq
parse_status-legacy_lines_example =
    parse_status-legacy_lines (codes "now") legacy
      (((omega arith, refl), omega arith, omega arith, omega arith), tt)
      (((omega arith, refl), refl, omega arith, omega arith), tt) (omega arith)
