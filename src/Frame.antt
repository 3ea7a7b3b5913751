-- ===== src/Frame.antt =====
-- openvpn-mgmt-frame: line framing of the management protocol.
pub mod EnvMap
pub mod Types
pub mod Encoder
pub mod Decoder
