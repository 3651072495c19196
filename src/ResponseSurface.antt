-- ===== src/ResponseSurface.antt =====
-- src/response_surface_ledger.rs: the ledger of response surfaces and of the inbound events.
pub mod Records
pub mod Surfaces
pub mod Events
pub mod Turns
pub mod WellFormed
pub mod Store
pub mod Policy
pub mod Runtime
pub mod Fixtures
