-- ===== src/Config/Validity.antt =====
-- pkg/config: for which committees New and NewSetup make valid configurations.
use consensus_go.Base.{
  ℕ, ◌+◌, ◌%◌, ◌^◌, ◌≡◌, ◌≤◌, ◌↔◌, refl, Bool, true, false, List, [], ◌∷◌, ◌++◌, Option, none, some,
  arith, ◌==◌, length, is_empty,
}
use consensus_go.Config.Settings.{
  Addresses, Member, Committee, Conf, setup_checks, consensus_checks, digits, itoa,
  required_by_linear, add_keys, add_sync_conf, add_log_conf, add_setup_conf, add_consensus_conf,
  add_last_level, new_setup, new,
}
use consensus_go.Config.Checks.{
  ConfigError, first_error, is_nil, any_nil, no_nils, check_checks, check_keys, check_sync_conf,
  valid_basics, valid, valid_setup,
}

first_error_iff : (a b : Option ConfigError) → (first_error a b ≡ none) ↔ ((a ≡ none) × (b ≡ none))
first_error_iff none b = (λ e. (refl, e), λ e. e.1)
first_error_iff (some e) b = (λ h. absurd (ground (arith, h)), λ h. absurd (ground (arith, h)))

-- The keys of one kind: none is missing, and there is one for each process, up to multiples of 2^16.
abbrev pub AreKeys : {K : Type 0} → List (Option K) → ℕ → Type 0
AreKeys ks n = (length ks % 2 ^ 16 ≡ n) × (any_nil ks ≡ false)

no_nils_iff : {K : Type 0} (ks : List (Option K)) (n : ℕ) → (no_nils ks n ≡ none) ↔ AreKeys ks n
unfolding no_nils
no_nils_iff ks n = ground arith

is_empty-append : (xs : List ℕ) (x : ℕ) → is_empty (xs ++ (x ∷ [])) ≡ false
is_empty-append [] x = refl
is_empty-append (y ∷ ys) x = refl

is_empty-setup : (xs : List ℕ) → is_empty (xs ++ (46 ∷ 115 ∷ 101 ∷ 116 ∷ 117 ∷ 112 ∷ [])) ≡ false
is_empty-setup [] = refl
is_empty-setup (x ∷ xs) = refl

is_empty-itoa : (n : ℕ) → is_empty (itoa n) ≡ false
unfolding digits
is_empty-itoa n = is_empty-append _ (48 + n % 10)

module _ {A : Type 0} where
  abbrev pub AreAddresses : Addresses A → ℕ → Type 0
  AreAddresses a n = (length a.rmc ≡ n) × (length a.gossip ≡ n) × (length a.fetch ≡ n)

module _ {K A : Type 0} where
  -- The own keys are there, and the keys of all processes, which are at least four.
  abbrev pub IsComplete : Member K → Committee K A → ℕ → Type 0
  IsComplete m c n =
      (4 ≤ n)
      × ((is_nil m.private_key ≡ false)
          × (is_nil m.rmc_secret_key ≡ false)
          × (is_nil m.p2p_secret_key ≡ false))
      × (AreKeys c.public_keys n × AreKeys c.rmc_verification_keys n × AreKeys c.p2p_public_keys n)

  check_keys_iff :
      (cnf : Conf K A)
      → (check_keys cnf ≡ none) ↔ (
          ((cnf.n_proc == 0) ≡ false)
          × ((is_nil cnf.private_key ≡ false)
              × (is_nil cnf.rmc_private_key ≡ false)
              × (is_nil cnf.p2p_secret_key ≡ false))
          × (AreKeys cnf.public_keys cnf.n_proc
              × AreKeys cnf.rmc_public_keys cnf.n_proc
              × AreKeys cnf.p2p_public_keys cnf.n_proc))
  unfolding check_keys
  check_keys_iff cnf = ground (
    arith,
    no_nils_iff cnf.public_keys cnf.n_proc,
    no_nils_iff cnf.rmc_public_keys cnf.n_proc,
    no_nils_iff cnf.p2p_public_keys cnf.n_proc,
  )

  check_sync_conf_iff :
      (cnf : Conf K A) (setup : Bool)
      → (check_sync_conf cnf setup ≡ none) ↔ (
          ((cnf.timeout == 0) ≡ false)
          × ((cnf.fetch_interval == 0) ≡ false)
          × ((cnf.gossip_above == 0) ≡ false)
          × ((length cnf.rmc_addresses ≡ cnf.n_proc)
              × (length cnf.gossip_addresses ≡ cnf.n_proc)
              × (length cnf.fetch_addresses ≡ cnf.n_proc)
              × (setup ≡ false → length cnf.mcast_addresses ≡ cnf.n_proc))
          × (((cnf.gossip_workers.0 == 0) ≡ false) × ((cnf.gossip_workers.1 == 0) ≡ false))
          × (((cnf.fetch_workers.0 == 0) ≡ false) × ((cnf.fetch_workers.1 == 0) ≡ false)))
  unfolding check_sync_conf
  check_sync_conf_iff cnf true = ground arith
  check_sync_conf_iff cnf false = ground arith

  valid_basics_iff :
      (cnf : Conf K A)
      → (valid_basics cnf ≡ none) ↔ (
          (4 ≤ cnf.n_proc)
          × (1 ≤ cnf.epoch_length)
          × (is_empty cnf.log_file ≡ false)
          × ((cnf.log_buffer == 0) ≡ false)
          × (check_keys cnf ≡ none))
  unfolding valid_basics
  valid_basics_iff cnf = ground arith

  valid_iff :
      (cnf : Conf K A)
      → (valid cnf ≡ none) ↔ (
          (valid_basics cnf ≡ none)
          × (cnf.crp_fixed_prefix ≤ cnf.n_proc)
          × ((length cnf.checks == length consensus_checks) ≡ true)
          × (check_checks cnf.checks consensus_checks ≡ none)
          × (check_sync_conf cnf false ≡ none))
  unfolding valid
  valid_iff cnf = ground arith

  valid_setup_iff :
      (cnf : Conf K A)
      → (valid_setup cnf ≡ none) ↔ (
          (valid_basics cnf ≡ none)
          × (cnf.can_skip_level ≡ false)
          × ((cnf.order_start_level == 6) ≡ true)
          × ((cnf.crp_fixed_prefix == 0) ≡ true)
          × ((length cnf.checks == length setup_checks) ≡ true)
          × (check_checks cnf.checks setup_checks ≡ none)
          × (check_sync_conf cnf true ≡ none))
  unfolding valid_setup
  valid_setup_iff cnf = ground arith

  -- New makes a configuration that Valid accepts exactly if the member has its three keys and the committee has at
  -- least four processes, for each of the three kinds of public keys one for each process and none of them nil, and
  -- as many addresses of each of the four kinds as processes. The number of processes is that of the public keys as
  -- a uint16, and the numbers of keys are compared as uint16.
  pub valid-new :
      (m : Member K) (c : Committee K A)
      → (valid (new m c) ≡ none) ↔ (
          IsComplete m c (length c.public_keys % 2 ^ 16)
          × AreAddresses c.addresses (length c.public_keys % 2 ^ 16)
          × (length c.addresses.mcast ≡ length c.public_keys % 2 ^ 16))
  unfolding new add_last_level add_consensus_conf add_log_conf add_sync_conf add_keys
      required_by_linear check_checks
  valid-new m c =
      let cnf = new m c in
      let file = is_empty-itoa m.pid in
      ground (
        arith,
        valid_iff cnf,
        valid_basics_iff cnf,
        check_keys_iff cnf,
        check_sync_conf_iff cnf false,
        file,
      )

  -- NewSetup makes a configuration that ValidSetup accepts exactly if the member has its three keys and the committee
  -- has at least four processes, for each of the three kinds of public keys one for each process and none of them
  -- nil, and as many addresses for the setup of each kind but multicasting as processes. The number of processes is
  -- that of the public keys as a uint16, and the numbers of keys are compared as uint16.
  pub valid_setup-new_setup :
      (m : Member K) (c : Committee K A)
      → (valid_setup (new_setup m c) ≡ none) ↔ (
          IsComplete m c (length c.public_keys % 2 ^ 16)
          × AreAddresses c.setup_addresses (length c.public_keys % 2 ^ 16))
  unfolding new_setup add_last_level add_setup_conf add_log_conf add_sync_conf add_keys
      required_by_linear check_checks
  valid_setup-new_setup m c =
      let cnf = new_setup m c in
      let file = is_empty-setup (itoa m.pid) in
      ground (
        arith,
        valid_setup_iff cnf,
        valid_basics_iff cnf,
        check_keys_iff cnf,
        check_sync_conf_iff cnf true,
        file,
      )
