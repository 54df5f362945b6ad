-- ===== src/Frontend/Status.antt =====
-- network/packages/frontend/src/hooks/useInferenceStatus.ts: one status for the three ways in which
-- the backend reports an inference, and the poll that fetches it.
pub mod Types
pub mod Request
pub mod Text
pub mod Job
pub mod Poll
pub mod Polling
pub mod Verifiers
pub mod Stages
