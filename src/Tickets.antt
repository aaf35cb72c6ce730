-- ===== src/Tickets.antt =====
-- apps/tickets: the rows that the ticket desk keeps, and the rules over them.
pub mod Model
pub mod Lifecycle
pub mod Visibility
pub mod Desk
pub mod Creation
