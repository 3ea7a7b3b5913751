-- ===== src/Tests/Responses.antt =====
-- The parsers of responses, the dates and the challenges: concrete runs.
use openvpn_mgmt_codec.Prelude.{
  ℕ, ◌+◌, ◌*◌, ◌≡◌, refl, List, [], ◌∷◌, ◌++◌, none, some, arith, true,
}
use openvpn_mgmt_codec.Prelude.Results.{ok}
use openvpn_mgmt_codec.Text.{Str, codes, str_eq, strip_prefix}
use openvpn_mgmt_codec.Text.Decimal.{to_string}
use openvpn_mgmt_codec.Values.OpenVpnState.{connected}
use openvpn_mgmt_codec.Message.Types.{StateEntry, state}
use openvpn_mgmt_codec.Message.Parse.Fields.{parse_state}
use openvpn_mgmt_codec.Timestamp.{decompose}
use openvpn_mgmt_codec.Timestamp.Calendar.{date_after}
use openvpn_mgmt_codec.Timestamp.Dates.{IsUtc, decompose-date_after, decompose-IsUtc}
use openvpn_mgmt_codec.Responses.{parse_load_stats}
use openvpn_mgmt_codec.Responses.Laws.{stats_text, stats_of, latest, parse_load_stats-latest}
use openvpn_mgmt_codec.Responses.States.{parse_state_entry}
use openvpn_mgmt_codec.Responses.StateLaws.{entry_text, parse_state-parse_state_entry}
use openvpn_mgmt_codec.Responses.Version.{is_management_line, to_ascii_lowercase}
use openvpn_mgmt_codec.Responses.Version
use openvpn_mgmt_codec.Responses.VersionLaws.{heading, last_openvpn, parse-heading}

-- 2024-03-21T14:30:00Z is day 19803.
decompose-date_after_example :
    decompose (86400 * 19803 + 3600 * 14 + 60 * 30 + 0)
    ≡ ((date_after 19803).0, (date_after 19803).1, (date_after 19803).2, 14, 30, 0)
decompose-date_after_example =
    decompose-date_after 19803 14 30 0 (omega arith) (omega arith) (omega arith)

decompose-IsUtc_example : IsUtc (decompose 1711031400)
decompose-IsUtc_example = decompose-IsUtc 1711031400

-- Out of order, with a key that is not known.
abbrev items : List (Str × ℕ)
items = (codes "bytesout", 50) ∷ (codes "x", 1) ∷ (codes "nclients", 3) ∷ (codes "bytesin", 9) ∷ []

parse_load_stats-latest_example :
    parse_load_stats (stats_text items) ≡ ok (record { nclients = 3; bytesin = 9; bytesout = 50 })
unfolding latest str_eq stats_of
parse_load_stats-latest_example = parse_load_stats-latest items (omega arith)

abbrev entry : StateEntry
entry = record {
  timestamp = 1711234567;
  name = connected;
  description = codes "SUCCESS";
  local_ip = codes "10.8.0.6";
  remote_ip = codes "198.51.100.1";
  remote_port = some 1194;
  local_addr = [];
  local_port = none;
  local_ipv6 = [];
}

parse_state-parse_state_entry_example :
    (parse_state_entry (entry_text entry) ≡ ok entry)
    × (parse_state (entry_text entry) ≡ some (state entry))
parse_state-parse_state_entry_example = parse_state-parse_state_entry entry (omega arith)

abbrev openvpn_line : Str
openvpn_line = codes "OpenVPN Version: OpenVPN 2.6.9"

parse-heading_example :
    Version.parse (openvpn_line ∷ (heading true ++ to_string 5) ∷ [])
    ≡ ok (record {
      management_version = some 5;
      openvpn_version_line = last_openvpn none (openvpn_line ∷ (heading true ++ to_string 5) ∷ []);
      raw_lines = openvpn_line ∷ (heading true ++ to_string 5) ∷ [];
    })
unfolding is_management_line to_ascii_lowercase strip_prefix
parse-heading_example = parse-heading true 5 (openvpn_line ∷ []) [] (omega arith) (refl, tt)
