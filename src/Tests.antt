-- ===== src/Tests.antt =====
-- Tests of the definitions, and the theorems at concrete inputs.
mod Fixtures
mod Tenants
mod Codec
mod Queue
mod Server
mod Ingress
mod Api
mod Handlers
mod Statements
mod Adapter
