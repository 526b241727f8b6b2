-- ===== src/Tests/Settings.antt =====
-- The theorem on configurations at a committee of four, and one of three.
use consensus_go.Base.{ℕ, ◌≡◌, ◌↔◌, refl, List, [], ◌∷◌, Option, none, some, length}
use consensus_go.Config.Settings.{
  Addresses, Member, Committee, new, new_setup, digits, add_keys, add_sync_conf, add_log_conf,
  add_consensus_conf, add_last_level,
}
use consensus_go.Config.Checks.{
  processes, keys_nil, no_nils, check_keys, valid_basics, valid, valid_setup,
}
use consensus_go.Config.Validity.{IsComplete, AreAddresses, valid-new, valid_setup-new_setup}

abbrev four_keys : List (Option ℕ)
four_keys = some 1 ∷ some 2 ∷ some 3 ∷ some 4 ∷ []

abbrev four_addresses : Addresses ℕ
four_addresses = record {
  rmc = 1 ∷ 2 ∷ 3 ∷ 4 ∷ [];
  gossip = 1 ∷ 2 ∷ 3 ∷ 4 ∷ [];
  fetch = 1 ∷ 2 ∷ 3 ∷ 4 ∷ [];
  mcast = 1 ∷ 2 ∷ 3 ∷ 4 ∷ [];
}

abbrev two_member : Member ℕ
two_member = record {
  pid = 2;
  private_key = some 7;
  rmc_secret_key = some 8;
  p2p_secret_key = some 9;
}

abbrev four_committee : Committee ℕ ℕ
four_committee = record {
  public_keys = four_keys;
  p2p_public_keys = four_keys;
  rmc_verification_keys = four_keys;
  setup_addresses = four_addresses;
  addresses = four_addresses;
}

-- One of the keys is nil.
abbrev torn_committee : Committee ℕ ℕ
torn_committee = record four_committee { p2p_public_keys = some 1 ∷ some 2 ∷ none ∷ some 4 ∷ [] }

abbrev three_committee : Committee ℕ ℕ
three_committee = record four_committee { public_keys = some 1 ∷ some 2 ∷ some 3 ∷ [] }

valid-torn : valid (new two_member torn_committee) ≡ some keys_nil
unfolding valid valid_basics new add_last_level add_consensus_conf add_log_conf add_sync_conf
    add_keys digits check_keys no_nils
valid-torn = refl

valid-three : valid (new two_member three_committee) ≡ some processes
unfolding valid valid_basics new add_last_level add_consensus_conf add_log_conf add_sync_conf
    add_keys
valid-three = refl

valid-new_example : (valid (new two_member four_committee) ≡ none) ↔ (
    IsComplete two_member four_committee 4
    × AreAddresses four_addresses 4
    × (length four_addresses.mcast ≡ 4))
valid-new_example = valid-new two_member four_committee

valid_setup-new_setup_example :
    (valid_setup (new_setup two_member four_committee) ≡ none)
    ↔ (IsComplete two_member four_committee 4 × AreAddresses four_addresses 4)
valid_setup-new_setup_example = valid_setup-new_setup two_member four_committee
