-- ===== src/Users.antt =====
-- Accounts: passwords, tokens, and the handlers of src/auth and src/user.
pub mod Passwords
pub mod Bearer
pub mod Login
pub mod Profiles
pub mod Accounts
pub mod Journey
