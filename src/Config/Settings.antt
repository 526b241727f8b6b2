-- ===== src/Config/Settings.antt =====
-- pkg/config/config.go: the configurations made for the setup and for the consensus.
use consensus_go.Base.{
  ℕ, zero, suc, ◌+◌, ◌-◌, ◌/◌, ◌%◌, ◌^◌, Bool, true, false, List, [], ◌∷◌, ◌++◌, Option, none, ltb,
  if◌then◌else◌, length,
}

-- The checks of pkg/dag/check, by name, and any other.
pub data UnitChecker : Type 0 where
  basic_correctness parent_consistency no_level_skipping no_forks no_self_forking_evidence
        forker_muting :
      UnitChecker
  other_checker : ℕ → UnitChecker

-- The addresses under the names that are read of the map.
pub record Addresses (A : Type 0) : Type 0 where
  pub rmc : List A
  pub gossip : List A
  pub fetch : List A
  pub mcast : List A

-- A `K` is a key of any kind, an `A` an address.
pub record Member (K : Type 0) : Type 0 where
  pub pid : ℕ
  pub private_key : Option K
  pub rmc_secret_key : Option K
  pub p2p_secret_key : Option K

pub record Committee (K A : Type 0) : Type 0 where
  pub public_keys : List (Option K)
  pub p2p_public_keys : List (Option K)
  pub rmc_verification_keys : List (Option K)
  pub setup_addresses : Addresses A
  pub addresses : Addresses A

-- Texts are lists of bytes and durations are milliseconds; the numbers are not negative. The threshold key and the
-- types of the networks, which nothing here reads, are left out.
pub record Conf (K A : Type 0) : Type 0 where
  pub pid : ℕ
  pub n_proc : ℕ
  pub epoch_length : ℕ
  pub number_of_epochs : ℕ
  pub last_level : ℕ
  pub can_skip_level : Bool
  pub checks : List UnitChecker
  pub log_file : List ℕ
  pub log_level : ℕ
  pub log_human : Bool
  pub log_buffer : ℕ
  pub private_key : Option K
  pub public_keys : List (Option K)
  pub p2p_public_keys : List (Option K)
  pub p2p_secret_key : Option K
  pub rmc_private_key : Option K
  pub rmc_public_keys : List (Option K)
  pub gossip_above : ℕ
  pub fetch_interval : ℕ
  pub gossip_interval : ℕ
  pub timeout : ℕ
  pub rmc_addresses : List A
  pub gossip_addresses : List A
  pub fetch_addresses : List A
  pub mcast_addresses : List A
  pub gossip_workers : ℕ × ℕ
  pub fetch_workers : ℕ × ℕ
  pub order_start_level : ℕ
  pub crp_fixed_prefix : ℕ
  pub zero_vote_round_for_common_vote : ℕ
  pub first_deciding_round : ℕ
  pub common_vote_deterministic_prefix : ℕ

abbrev pub setup_checks : List UnitChecker
setup_checks = basic_correctness ∷ parent_consistency ∷ no_level_skipping ∷ no_forks ∷ []

abbrev pub consensus_checks : List UnitChecker
consensus_checks =
    basic_correctness ∷ parent_consistency ∷ no_self_forking_evidence ∷ forker_muting ∷ []

-- strconv.Itoa of a uint16, which has at most five digits.
unfoldable pub digits : ℕ → ℕ → List ℕ
digits zero n = []
digits (suc fuel) n =
    let front = digits fuel (n / 10) in (if ltb n 10 then [] else front) ++ ((48 + n % 10) ∷ [])

abbrev pub itoa : ℕ → List ℕ
itoa n = digits 5 n

module _ {K A : Type 0} where
  unfoldable pub required_by_linear : Conf K A
  required_by_linear = record {
    pid = 0;
    n_proc = 0;
    epoch_length = 0;
    number_of_epochs = 0;
    last_level = 0;
    can_skip_level = false;
    checks = [];
    log_file = [];
    log_level = 0;
    log_human = false;
    log_buffer = 0;
    private_key = none;
    public_keys = [];
    p2p_public_keys = [];
    p2p_secret_key = none;
    rmc_private_key = none;
    rmc_public_keys = [];
    gossip_above = 0;
    fetch_interval = 0;
    gossip_interval = 0;
    timeout = 0;
    rmc_addresses = [];
    gossip_addresses = [];
    fetch_addresses = [];
    mcast_addresses = [];
    gossip_workers = (0, 0);
    fetch_workers = (0, 0);
    order_start_level = 0;
    crp_fixed_prefix = 0;
    zero_vote_round_for_common_vote = 3;
    first_deciding_round = 3;
    common_vote_deterministic_prefix = 10;
  }

  unfoldable pub add_check : Conf K A → UnitChecker → Conf K A
  add_check c check = record c { checks = c.checks ++ (check ∷ []) }

  unfoldable pub add_keys : Member K → Committee K A → Conf K A → Conf K A
  add_keys m c cnf = record cnf {
    pid = m.pid;
    n_proc = length c.public_keys % 2 ^ 16;
    private_key = m.private_key;
    public_keys = c.public_keys;
    rmc_private_key = m.rmc_secret_key;
    rmc_public_keys = c.rmc_verification_keys;
    p2p_secret_key = m.p2p_secret_key;
    p2p_public_keys = c.p2p_public_keys;
  }

  unfoldable pub add_sync_conf : Addresses A → Conf K A → Conf K A
  add_sync_conf addresses cnf = record cnf {
    timeout = 5000;
    fetch_interval = 1000;
    gossip_interval = 100;
    gossip_above = 50;
    rmc_addresses = addresses.rmc;
    gossip_addresses = addresses.gossip;
    fetch_addresses = addresses.fetch;
    mcast_addresses = addresses.mcast;
    gossip_workers = (cnf.n_proc / 20 + 1, cnf.n_proc / 40 + 1);
    fetch_workers = (cnf.n_proc / 2, cnf.n_proc / 4);
  }

  unfoldable pub add_log_conf : List ℕ → Conf K A → Conf K A
  add_log_conf log_file cnf = record cnf {
    log_file = log_file;
    log_buffer = 100000;
    log_human = false;
    log_level = 1;
  }

  unfoldable pub add_setup_conf : Conf K A → Conf K A
  add_setup_conf cnf = record cnf {
    can_skip_level = false;
    order_start_level = 6;
    crp_fixed_prefix = 0;
    epoch_length = 1;
    number_of_epochs = 1;
    checks = setup_checks;
  }

  unfoldable pub add_consensus_conf : Conf K A → Conf K A
  add_consensus_conf cnf = record cnf {
    can_skip_level = true;
    order_start_level = 0;
    crp_fixed_prefix = 4;
    epoch_length = 30;
    number_of_epochs = 3;
    checks = consensus_checks;
  }

  -- The epoch length is at least 1 where this is called.
  unfoldable pub add_last_level : Conf K A → Conf K A
  add_last_level cnf = record cnf { last_level = cnf.epoch_length + cnf.order_start_level - 1 }

  -- The name of the log file ends in ".setup".
  unfoldable pub new_setup : Member K → Committee K A → Conf K A
  new_setup m c =
      let named = add_sync_conf c.setup_addresses (add_keys m c required_by_linear) in
      add_last_level (
        add_setup_conf
          (add_log_conf (itoa named.pid ++ (46 ∷ 115 ∷ 101 ∷ 116 ∷ 117 ∷ 112 ∷ [])) named))

  unfoldable pub new : Member K → Committee K A → Conf K A
  new m c =
      let named = add_sync_conf c.addresses (add_keys m c required_by_linear) in
      add_last_level (add_consensus_conf (add_log_conf (itoa named.pid) named))
