-- ===== src/Tests.antt =====
-- The theorems at concrete inputs, and runs of the definitions.
pub mod Encryption
pub mod Status
pub mod Chat
pub mod Network
pub mod Agent
pub mod Requests
pub mod Trading
pub mod Page
pub mod Escrow
pub mod Wallet
pub mod Wizard
pub mod StatusPage
pub mod Tokens
pub mod Risk
pub mod Scripts
pub mod Cli
pub mod Storage
pub mod EscrowPage
pub mod Queries
