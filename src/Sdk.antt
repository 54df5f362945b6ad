-- ===== src/Sdk.antt =====
-- network/packages/agent-sdk/src: the agent SDK.
pub mod Encryption
pub mod Ipfs
pub mod Agent
pub mod Client
pub mod Server
pub mod Cli
