-- ===== src/Codec.antt =====
-- openvpn-mgmt-codec/src/codec.rs: `OvpnCodec`, its encoder and its decoder.
pub mod Wire
pub mod State
pub mod Encode
pub mod Decode
pub mod Pipeline
pub mod Sanitize
pub mod Readback
