-- ===== src/Auth.antt =====
-- internal/auth: bearer tokens, the sessions of signed-in users, passwords and accounts.
pub mod Tokens
pub mod Sessions
pub mod Validity
pub mod Requests
pub mod Logout
pub mod RoundTrip
pub mod Passwords
pub mod Verification
pub mod Users
pub mod Accounts
pub mod Registration
pub mod Tests
pub mod AccountTests
