-- ===== src/Subscription.antt =====
-- src/vpn_control_plane/subscription: a client's subscription, found by its public token, built
-- from the panels and the resolved feeds, and rendered.
pub mod Token
pub mod Traffic
pub mod Render
pub mod Links
pub mod View
pub mod Build
pub mod Pages
