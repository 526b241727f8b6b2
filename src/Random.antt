-- ===== src/Random.antt =====
-- pkg/random: the source of randomness with a fixed threshold key.
pub mod Coin
pub mod Agreement
