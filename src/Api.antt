-- ===== src/Api.antt =====
-- The HTTP API: internal/httpapi and internal/apitypes.
pub mod Responses
pub mod Bodies
pub mod Access
pub mod Server
pub mod Projects
pub mod Router
pub mod Scope
pub mod Reads
pub mod Accounts
pub mod Tenants
pub mod Isolation
pub mod Tokens
