-- ===== src/Intake.antt =====
-- apps/intake, apps/customers and apps/messaging: how a request comes in, and whose it is.
pub mod Office
pub mod Matching
pub mod References
pub mod Opening
pub mod Inbound
pub mod Linking
pub mod Timeline
mod Tests
