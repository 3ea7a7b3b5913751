-- ===== src/Command.antt =====
-- openvpn-mgmt-codec/src/command.rs and the argument types of its commands.
pub mod Types
pub mod Response
pub mod Token
pub mod Parse
