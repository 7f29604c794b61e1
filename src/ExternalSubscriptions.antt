-- ===== src/ExternalSubscriptions.antt =====
-- src/vpn_control_plane/external_subscriptions: feeds of links from elsewhere, the slugs that name
-- their entries, and the references to them.
pub mod Parser
pub mod Slug
pub mod Cache
pub mod CacheFile
pub mod Service
