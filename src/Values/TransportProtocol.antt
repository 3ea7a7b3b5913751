-- ===== src/Values/TransportProtocol.antt =====
-- openvpn-mgmt-codec/src/transport_protocol.rs: the type, its `Display` and its `FromStr`; the error holds the refused text.
use openvpn_mgmt_codec.Prelude.{◌≡◌, refl, ◌||◌, if◌then◌else◌}
use openvpn_mgmt_codec.Prelude.Results.{Result, ok, err}
use openvpn_mgmt_codec.Text.{Str, codes, str_eq}

pub data TransportProtocol : Type 0 where
  udp tcp : TransportProtocol
  unknown : Str → TransportProtocol

unfoldable pub transport_protocol_text : TransportProtocol → Str
transport_protocol_text udp = codes "udp"
transport_protocol_text tcp = codes "tcp"
transport_protocol_text (unknown text) = text

unfoldable pub parse_transport_protocol : Str → Result Str TransportProtocol
parse_transport_protocol input =
    if str_eq input (codes "udp") || str_eq input (codes "UDP")
    then ok udp
    else if str_eq input (codes "tcp") || str_eq input (codes "TCP")
    then ok tcp
    else err input

-- Every known value of `TransportProtocol` is read back from the text that it is printed as.
abbrev pub IsKnown : TransportProtocol → Type 0
IsKnown (unknown text) = ⊥
IsKnown _ = Unit

pub parse_transport_protocol-transport_protocol_text :
    (v : TransportProtocol)
    → IsKnown v
    → parse_transport_protocol (transport_protocol_text v) ≡ ok v
unfolding parse_transport_protocol transport_protocol_text str_eq
parse_transport_protocol-transport_protocol_text udp h = refl
parse_transport_protocol-transport_protocol_text tcp h = refl
parse_transport_protocol-transport_protocol_text (unknown text) h = absurd h
