-- ===== src/ProviderInbound.antt =====
-- src/provider_inbound.rs: the messages that come in from a provider.
pub mod Types
pub mod Fields
pub mod Mentions
pub mod Commands
pub mod Slack
pub mod Lark
pub mod Control
pub mod Claim
pub mod Identified
pub mod ReadyOnce
mod Tests
