-- ===== src/Session.antt =====
-- security/browser_sessions.py: signed cookies of browser sessions, and CSRF tokens.
pub mod Claims
pub mod Manager
pub mod Lifetime
pub mod Forgery
mod Examples
