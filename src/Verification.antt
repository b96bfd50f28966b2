-- ===== src/Verification.antt =====
-- The verification of decisions, of the directory verification: how a failure is classified (Failures,
-- Adapters), how a critique is judged by the families of the models (Critics), the reward that follows
-- (Rewards), and how a reward and a classification are written (Persisting).
pub mod Failures
pub mod Critics
pub mod Rewards
pub mod Atomic
pub mod Adapters
pub mod Persisting
pub mod Debts
pub mod Positive
