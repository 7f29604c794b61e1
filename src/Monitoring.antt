-- ===== src/Monitoring.antt =====
-- src/vpn_control_plane/monitoring: polling the nodes, and the alerts that follow.
pub mod State
pub mod Detectors
pub mod Service
pub mod Notifier
