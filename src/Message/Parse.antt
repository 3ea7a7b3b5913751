-- ===== src/Message/Parse.antt =====
-- The notification parsers of openvpn-mgmt-codec/src/codec.rs. `none` sends the caller back to
-- `Notification::Simple`; the warnings that the source logs are left out.
pub mod Fields
pub mod Password
pub mod Kinds
pub mod Dispatch
unfoldable pub use Fields.*
unfoldable pub use Password.*
