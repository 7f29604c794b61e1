-- ===== src/Sync.antt =====
-- src/vpn_control_plane/sync: the clients of data.json are pushed onto the panels.
pub mod Plans
pub mod Service
