-- ===== src/Responses/States.antt =====
-- openvpn-mgmt-codec/src/parsed_response.rs: the entries of the `state` command's response.
use openvpn_mgmt_codec.Prelude.{
  ℕ, suc, zero, List, [], ◌∷◌, Option, none, some, length, ltb, if◌then◌else◌,
}
use openvpn_mgmt_codec.Prelude.Results.{Result, ok, err, ◌>>=◌}
use openvpn_mgmt_codec.Prelude.Options.{unwrap_or}
use openvpn_mgmt_codec.Text.{Str, is_empty, splitn}
use openvpn_mgmt_codec.Text.Decimal.{parse, max_u16, max_u64}
use openvpn_mgmt_codec.Values.OpenVpnState.{OpenVpnState, parse_openvpn_state}
use openvpn_mgmt_codec.Message.Types.{StateEntry}
use openvpn_mgmt_codec.Responses.{
  ParseResponseError, state_too_few_fields, invalid_timestamp, invalid_state_name,
  empty_state_history, ok_or,
}

-- `fields.get(idx)`
abbrev pub get : List Str → ℕ → Option Str
get [] idx = none
get (s ∷ ss) zero = some s
get (s ∷ ss) (suc idx) = get ss idx

abbrev pub get_text : List Str → ℕ → Str
get_text fields idx = unwrap_or (get fields idx) []

-- A port that is missing, empty or no number is `None`.
unfoldable pub port : Option Str → Option ℕ
port none = none
port (some field) = if is_empty field then none else parse max_u16 field

abbrev pub get_port : List Str → ℕ → Option ℕ
get_port fields idx = port (get fields idx)

-- `?` on the error of the state's name.
abbrev state_name : Result Str OpenVpnState → Result ParseResponseError OpenVpnState
state_name (ok name) = ok name
state_name (err text) = err (invalid_state_name text)

-- The entry of the fields; two are there.
unfoldable pub entry_of_fields : List Str → Result ParseResponseError StateEntry
entry_of_fields fields = do
  timestamp ← ok_or (parse max_u64 (get_text fields 0)) (invalid_timestamp (get_text fields 0))
  name ← state_name (parse_openvpn_state (get_text fields 1))
  ok (record {
    timestamp = timestamp;
    name = name;
    description = get_text fields 2;
    local_ip = get_text fields 3;
    remote_ip = get_text fields 4;
    remote_port = get_port fields 5;
    local_addr = get_text fields 6;
    local_port = get_port fields 7;
    local_ipv6 = get_text fields 8;
  })

unfoldable pub parse_state_entry : Str → Result ParseResponseError StateEntry
parse_state_entry line =
    let fields = splitn 9 b',' line in
    if ltb (length fields) 2
    then err (state_too_few_fields (length fields))
    else entry_of_fields fields

unfoldable pub parse_state_history : List Str → Result ParseResponseError (List StateEntry)
parse_state_history [] = ok []
parse_state_history (line ∷ lines) = do
  entry ← parse_state_entry line
  entries ← parse_state_history lines
  ok (entry ∷ entries)

-- `Iterator::last`
abbrev pub last {ℓ} : {A : Type ℓ} → List A → Option A
last [] = none
last (x ∷ []) = some x
last (x ∷ y ∷ xs) = last (y ∷ xs)

unfoldable pub parse_current_state : List Str → Result ParseResponseError StateEntry
parse_current_state lines = do
  entries ← parse_state_history lines
  ok_or (last entries) empty_state_history
