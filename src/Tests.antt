-- ===== src/Tests.antt =====
-- The theorems applied to concrete inputs.
mod Pruning
mod Environment
mod Configuration
mod Invocation
mod Network
mod Funding
mod Waiting
mod Forwarding
