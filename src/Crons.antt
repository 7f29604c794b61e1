-- ===== src/Crons.antt =====
-- src/vpn_control_plane/crons: the schedule of the background jobs, crons/base.py.
pub mod Expression
pub mod Next
pub mod Loop
pub mod Jobs
