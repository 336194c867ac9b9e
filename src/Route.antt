-- ===== src/Route.antt =====
-- route: which instances of a service a call may go to.
pub mod Router
pub mod Lane
pub mod Composite
