-- ===== src/Message.antt =====
-- openvpn-mgmt-codec/src/message.rs, and the notification parsers of codec.rs.
pub mod Types
pub mod Parse
