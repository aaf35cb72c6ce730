-- ===== src/Portal.antt =====
-- apps/portal: the customers' own accounts, the links that are mailed to them, and their sign-in.
pub mod Model
pub mod Tokens
pub mod Registration
pub mod Passwords
pub mod Auth
pub mod Requests
mod Tests
