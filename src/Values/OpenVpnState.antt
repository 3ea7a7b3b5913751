-- ===== src/Values/OpenVpnState.antt =====
-- openvpn-mgmt-codec/src/openvpn_state.rs: the type, its `Display` and its `FromStr`; the error holds the refused text.
use openvpn_mgmt_codec.Prelude.{◌≡◌, refl, if◌then◌else◌}
use openvpn_mgmt_codec.Prelude.Results.{Result, ok, err}
use openvpn_mgmt_codec.Text.{Str, codes, str_eq}

pub data OpenVpnState : Type 0 where
  connecting wait auth get_config assign_ip add_routes connected reconnecting exiting tcp_connect
        resolve auth_pending :
      OpenVpnState
  unknown : Str → OpenVpnState

unfoldable pub openvpn_state_text : OpenVpnState → Str
openvpn_state_text connecting = codes "CONNECTING"
openvpn_state_text wait = codes "WAIT"
openvpn_state_text auth = codes "AUTH"
openvpn_state_text get_config = codes "GET_CONFIG"
openvpn_state_text assign_ip = codes "ASSIGN_IP"
openvpn_state_text add_routes = codes "ADD_ROUTES"
openvpn_state_text connected = codes "CONNECTED"
openvpn_state_text reconnecting = codes "RECONNECTING"
openvpn_state_text exiting = codes "EXITING"
openvpn_state_text tcp_connect = codes "TCP_CONNECT"
openvpn_state_text resolve = codes "RESOLVE"
openvpn_state_text auth_pending = codes "AUTH_PENDING"
openvpn_state_text (unknown text) = text

unfoldable pub parse_openvpn_state : Str → Result Str OpenVpnState
parse_openvpn_state input =
    if str_eq input (codes "CONNECTING")
    then ok connecting
    else if str_eq input (codes "WAIT")
    then ok wait
    else if str_eq input (codes "AUTH")
    then ok auth
    else if str_eq input (codes "GET_CONFIG")
    then ok get_config
    else if str_eq input (codes "ASSIGN_IP")
    then ok assign_ip
    else if str_eq input (codes "ADD_ROUTES")
    then ok add_routes
    else if str_eq input (codes "CONNECTED")
    then ok connected
    else if str_eq input (codes "RECONNECTING")
    then ok reconnecting
    else if str_eq input (codes "EXITING")
    then ok exiting
    else if str_eq input (codes "TCP_CONNECT")
    then ok tcp_connect
    else if str_eq input (codes "RESOLVE")
    then ok resolve
    else if str_eq input (codes "AUTH_PENDING")
    then ok auth_pending
    else err input

-- Every known value of `OpenVpnState` is read back from the text that it is printed as.
abbrev pub IsKnown : OpenVpnState → Type 0
IsKnown (unknown text) = ⊥
IsKnown _ = Unit

pub parse_openvpn_state-openvpn_state_text :
    (v : OpenVpnState) → IsKnown v → parse_openvpn_state (openvpn_state_text v) ≡ ok v
unfolding parse_openvpn_state openvpn_state_text str_eq
parse_openvpn_state-openvpn_state_text connecting h = refl
parse_openvpn_state-openvpn_state_text wait h = refl
parse_openvpn_state-openvpn_state_text auth h = refl
parse_openvpn_state-openvpn_state_text get_config h = refl
parse_openvpn_state-openvpn_state_text assign_ip h = refl
parse_openvpn_state-openvpn_state_text add_routes h = refl
parse_openvpn_state-openvpn_state_text connected h = refl
parse_openvpn_state-openvpn_state_text reconnecting h = refl
parse_openvpn_state-openvpn_state_text exiting h = refl
parse_openvpn_state-openvpn_state_text tcp_connect h = refl
parse_openvpn_state-openvpn_state_text resolve h = refl
parse_openvpn_state-openvpn_state_text auth_pending h = refl
parse_openvpn_state-openvpn_state_text (unknown text) h = absurd h
