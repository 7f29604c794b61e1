-- ===== src/Http.antt =====
-- src/vpn_control_plane/http: which handler answers a request, and what it answers.
pub mod Routes
