-- ===== src/Tests.antt =====
-- Examples: the theorems at concrete inputs.
pub mod Fixtures
pub mod DataTests
mod MonitoringTests
mod FeedTests
mod SyncTests
mod SettingsTests
mod SubscriptionTests
mod TelegramTests
mod XuiTests
mod HttpTests
mod FileTests
mod LocalTests
