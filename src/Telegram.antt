-- ===== src/Telegram.antt =====
-- src/vpn_control_plane/telegram: the bot. The messages of setup_messages.py stand here as they are
-- used; the pictures are not modelled.
pub mod Access
pub mod Bot
