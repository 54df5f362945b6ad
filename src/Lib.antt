-- ===== src/Lib.antt =====
-- Blindference: confidential inference on a network of nodes. A client seals its prompt with a
-- fresh AES-256-GCM key, splits the key into two 128-bit halves that CoFHE encrypts, uploads the
-- sealed prompt to IPFS and submits a job; a leader and verifiers run it, and the answer comes
-- back sealed with a key of its own. The verification covers the TypeScript packages.
--
-- Prelude: shared names, Booleans, lists over the native numbers, texts and results.
-- Bytes: buffers as lists of numbers below 256, hexadecimal text, big-endian numbers.
-- Async: `async` functions as actions on a state of any type that may throw.
-- Crypto, Cofhe: what the program calls of Node's crypto, the browser's crypto and the CoFHE SDK,
--   as records of operations, with their documented laws where a theorem relies on one.
-- Http: the response of `fetch`.
-- Sdk: network/packages/agent-sdk/src. Encryption and Ipfs are encryption.ts; Agent is agent.ts, with
--   its services (HTTP clients, wallet, chain, clock) as one record; Client is client.ts; Server is
--   server.ts; Cli is cli.ts.
-- Shared: network/packages/shared/src (encryption/aes.ts, ipfs.ts, commitment.ts).
-- Interop: how what one package writes is read by another.
-- Frontend: network/packages/frontend/src. PromptKey is utils/textPromptKey.ts; Status is
--   hooks/useInferenceStatus.ts and hooks/useJobStatus.ts; History is utils/historyStore.ts; Chat
--   is hooks/useChat.ts; Page is pages/InferenceNewPage.tsx, from the prompt that is typed to the
--   job that is submitted; Escrow is hooks/useCreateEscrow.ts, which it calls. Chain is the code that
--   sends a transaction, Vault is lib/promptKeyStore.ts, lib/inputVault.ts and utils/encryption.ts,
--   and Risk is stores/inferenceStore.ts and the risk submission of the inference page, which uses
--   both. Wrap is hooks/useWrapUSDC.ts; Tokens is hooks/useBlindFaucet.ts, the payments of
--   pages/BuyCreditsPage.tsx and components/DepositModal.tsx. History/Refinement compares the stored
--   list with a map from ids to entries, and Chat/Reach is the chat as a relation of steps. Wizard is
--   components/inference/TextInferenceWizard.tsx, StatusPage is pages/InferenceStatusPage.tsx with
--   components/StatusTimeline.tsx, Reineira is lib/reineiraSdk.ts, CofheHook is
--   hooks/useCofheClient.ts and Credits is hooks/useCredits.ts. EscrowPage is
--   pages/CreateEscrowPage.tsx, and Queries is hooks/useDeveloperStats.ts, useNodeStats.ts,
--   useNodeJobs.ts, useIsNodeOperator.ts and components/DisputeForm.tsx.
-- Trading: network/protocol/packages/examples-trading-signal-sdk/src (client.ts, types.ts).
-- Scripts: network/packages/payment/scripts (create_escrow.ts, purchase_insurance.ts,
--   file_dispute.ts, wrap_usdc.ts).
-- Tests: the theorems at concrete inputs.
--
-- A function keeps its name in snake_case. A `throw` is an error value; an `async` function is an
-- action on the state of the services that it calls, and what was done before a throw stays done.
-- A missing field and `null` are both `none`. Scores are numbers that are only copied. The polls
-- make the number of rounds that the code allows them. Two loops run on fuel, `to_string_16` and
-- `decimal`: one round for each digit, so n + 1 rounds are enough for n.
--
-- Not modelled: rendering, the router, wallets and contracts (called through wagmi and viem),
-- timers, and the Python and Solidity parts.
pub mod Prelude
pub mod Bytes
pub mod Async
pub mod Http
pub mod Crypto
pub mod Cofhe
pub mod Frontend
pub mod Shared
pub mod Sdk
pub mod Trading
pub mod Scripts
pub mod Interop
pub mod Tests
