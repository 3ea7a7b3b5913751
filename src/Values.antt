-- ===== src/Values.antt =====
-- openvpn-mgmt-codec/src: the small value types of commands and notifications.
pub mod Auth
pub mod Signal
pub mod StreamMode
pub mod StatusFormat
pub mod NeedOk
pub mod TransportProtocol
pub mod LogLevel
pub mod OpenVpnState
pub mod ClientEvent
