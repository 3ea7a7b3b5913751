-- ===== src/Values/ClientEvent.antt =====
-- openvpn-mgmt-codec/src/client_event.rs: the type, its `FromStr`; the error holds the refused text.
use openvpn_mgmt_codec.Prelude.{if◌then◌else◌}
use openvpn_mgmt_codec.Prelude.Results.{Result, ok, err}
use openvpn_mgmt_codec.Text.{Str, codes, str_eq}

pub data ClientEvent : Type 0 where
  connect reauth established disconnect : ClientEvent
  cr_response unknown : Str → ClientEvent

unfoldable pub parse_client_event : Str → Result Str ClientEvent
parse_client_event input =
    if str_eq input (codes "CONNECT")
    then ok connect
    else if str_eq input (codes "REAUTH")
    then ok reauth
    else if str_eq input (codes "ESTABLISHED")
    then ok established
    else if str_eq input (codes "DISCONNECT")
    then ok disconnect
    else err input
