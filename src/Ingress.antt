-- ===== src/Ingress.antt =====
-- The NAT rules of floating IPs on the host: internal/network/ingress.go.
pub mod Rules
pub mod Host
pub mod Answers
pub mod Pairs
pub mod Kept
