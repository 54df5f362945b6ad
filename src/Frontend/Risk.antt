-- ===== src/Frontend/Risk.antt =====
-- The risk scoring of the web client: network/packages/frontend/src/stores/inferenceStore.ts, and
-- `handleRiskSubmit` of pages/InferenceNewPage.tsx.
pub mod Store
pub mod Submit
pub mod Submitted
