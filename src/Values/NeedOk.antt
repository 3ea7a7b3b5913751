-- ===== src/Values/NeedOk.antt =====
-- openvpn-mgmt-codec/src/need_ok.rs: the type, its `Display` and its `FromStr`; the error holds the refused text.
use openvpn_mgmt_codec.Text.{Str, codes}

pub data NeedOkResponse : Type 0 where
  accept cancel : NeedOkResponse

unfoldable pub need_ok_text : NeedOkResponse → Str
need_ok_text accept = codes "ok"
need_ok_text cancel = codes "cancel"
