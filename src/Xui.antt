-- ===== src/Xui.antt =====
-- src/vpn_control_plane/xui: what the services use of the 3x-UI panels.
pub mod Panel
pub mod Client
