-- ===== src/Shared.antt =====
-- network/packages/shared/src: what the packages share.
pub mod Aes
pub mod Ipfs
pub mod Commitment
