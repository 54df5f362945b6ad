-- ===== src/Frontend/Page.antt =====
-- network/packages/frontend/src/pages/InferenceNewPage.tsx: the sealing of a prompt, the steps of the
-- execution trace, and the submission of a chat message. Rendering is not modelled.
pub mod Seal
pub mod Sealed
pub mod Steps
pub mod Trace
pub mod Submit
pub mod Flow
pub mod Handle
pub mod Submitted
