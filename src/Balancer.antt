-- ===== src/Balancer.antt =====
-- balancer: the choice of one instance for a call.
pub mod Hash
pub mod P2c
