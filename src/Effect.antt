-- ===== src/Effect.antt =====
-- internal/effect: the side effects of the servers, behind policies.
pub mod Policy
