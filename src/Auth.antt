-- ===== src/Auth.antt =====
-- Who sends a request and what it may do: scopes, API keys, tokens.
pub mod Scopes
pub mod Keys
pub mod Principal
pub mod Login
