-- ===== src/Tests.antt =====
-- The theorems at concrete inputs, and tests of the definitions.
mod Samples
mod Chains
mod Briefs
mod Buffering
mod Creation
mod Epochs
mod Sharing
mod Wire
mod Stores
mod Settings
mod Coins
mod Rounds
