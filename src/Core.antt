-- ===== src/Core.antt =====
-- apps/core, and the operations of Python's texts that the services use.
pub mod Text
pub mod Lines
pub mod Newest
pub mod Logging
pub mod Decimal
pub mod Sequence
