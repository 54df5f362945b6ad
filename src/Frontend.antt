-- ===== src/Frontend.antt =====
-- network/packages/frontend/src: the web client.
pub mod PromptKey
pub mod Status
pub mod Chat
pub mod History
pub mod Page
pub mod Escrow
pub mod Chain
pub mod Vault
pub mod Wrap
pub mod Tokens
pub mod Risk
pub mod Wizard
pub mod StatusPage
pub mod Reineira
pub mod CofheHook
pub mod Credits
pub mod EscrowPage
pub mod Queries
