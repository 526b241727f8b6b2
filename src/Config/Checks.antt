-- ===== src/Config/Checks.antt =====
-- pkg/config/checks.go: which configurations are valid.
use consensus_go.Base.{
  ℕ, ◌+◌, ◌%◌, ◌^◌, Bool, true, false, not, ◌||◌, List, [], ◌∷◌, Option, none, some, ltb, ◌==◌,
  if◌then◌else◌, length, is_empty,
}
use consensus_go.Config.Settings.{
  UnitChecker, basic_correctness, parent_consistency, no_level_skipping, no_forks,
  no_self_forking_evidence, forker_muting, other_checker, Conf, setup_checks, consensus_checks,
}

-- The errors, by what they are about.
pub data ConfigError : Type 0 where
  processes epoch log_name log_size private_key keys_missing keys_nil : ConfigError
  timeouts addresses_missing workers fixed_prefix checks_missing level_skipping start_level :
      ConfigError

-- The first of two errors.
abbrev pub first_error : Option ConfigError → Option ConfigError → Option ConfigError
first_error none e = e
first_error (some e) f = some e

abbrev pub error_if : Bool → ConfigError → Option ConfigError
error_if b e = if b then some e else none

module _ {T : Type 0} where
  abbrev pub is_nil : Option T → Bool
  is_nil none = true
  is_nil (some t) = false

  abbrev pub any_nil : List (Option T) → Bool
  any_nil [] = false
  any_nil (o ∷ os) = is_nil o || any_nil os

  -- noNils: the length is compared as a uint16.
  unfoldable pub no_nils : List (Option T) → ℕ → Option ConfigError
  no_nils os n_proc =
      first_error (error_if (not (length os % 2 ^ 16 == n_proc)) keys_missing)
        (error_if (any_nil os) keys_nil)

-- Whether two checks have the same function name.
abbrev pub checker_number : UnitChecker → ℕ
checker_number basic_correctness = 0
checker_number parent_consistency = 1
checker_number no_level_skipping = 2
checker_number no_forks = 3
checker_number no_self_forking_evidence = 4
checker_number forker_muting = 5
checker_number (other_checker n) = 6 + n

abbrev pub is_given : UnitChecker → List UnitChecker → Bool
is_given check [] = false
is_given check (c ∷ cs) = checker_number c == checker_number check || is_given check cs

unfoldable pub check_checks : List UnitChecker → List UnitChecker → Option ConfigError
check_checks given [] = none
check_checks given (check ∷ expected) =
    first_error (error_if (not (is_given check given)) checks_missing) (check_checks given expected)

module _ {K A : Type 0} where
  unfoldable pub check_keys : Conf K A → Option ConfigError
  check_keys cnf = first_error (error_if (cnf.n_proc == 0) processes) (
      first_error (error_if (is_nil cnf.private_key) private_key) (
        first_error (no_nils cnf.public_keys cnf.n_proc) (
          first_error (error_if (is_nil cnf.rmc_private_key) private_key) (
            first_error (no_nils cnf.rmc_public_keys cnf.n_proc) (
              first_error (error_if (is_nil cnf.p2p_secret_key) private_key)
                (no_nils cnf.p2p_public_keys cnf.n_proc))))))

  abbrev pub wrong_count : List A → Conf K A → Bool
  wrong_count as_given cnf = not (length as_given == cnf.n_proc)

  unfoldable pub check_sync_conf : Conf K A → Bool → Option ConfigError
  check_sync_conf cnf setup = first_error (error_if (cnf.timeout == 0) timeouts) (
      first_error (error_if (cnf.fetch_interval == 0) timeouts) (
        first_error (error_if (cnf.gossip_above == 0) timeouts) (
          first_error (error_if (wrong_count cnf.rmc_addresses cnf) addresses_missing) (
            first_error (error_if (wrong_count cnf.gossip_addresses cnf) addresses_missing) (
              first_error (error_if (wrong_count cnf.fetch_addresses cnf) addresses_missing) (
                first_error
                  (if setup
                    then none
                    else error_if (wrong_count cnf.mcast_addresses cnf) addresses_missing)
                  (first_error (error_if (cnf.gossip_workers.0 == 0) workers) (
                    first_error (error_if (cnf.gossip_workers.1 == 0) workers) (
                      first_error (error_if (cnf.fetch_workers.0 == 0) workers)
                        (error_if (cnf.fetch_workers.1 == 0) workers))))))))))

  -- valid: what the setup and the consensus share.
  unfoldable pub valid_basics : Conf K A → Option ConfigError
  valid_basics cnf = first_error (error_if (ltb cnf.n_proc 4) processes) (
      first_error (error_if (ltb cnf.epoch_length 1) epoch) (
        first_error (error_if (is_empty cnf.log_file) log_name)
          (first_error (error_if (cnf.log_buffer == 0) log_size) (check_keys cnf))))

  unfoldable pub valid : Conf K A → Option ConfigError
  valid cnf = first_error (valid_basics cnf) (
      first_error (error_if (ltb cnf.n_proc cnf.crp_fixed_prefix) fixed_prefix) (
        first_error (error_if (not (length cnf.checks == length consensus_checks)) checks_missing)
          (first_error (check_checks cnf.checks consensus_checks) (check_sync_conf cnf false))))

  unfoldable pub valid_setup : Conf K A → Option ConfigError
  valid_setup cnf = first_error (valid_basics cnf) (
      first_error (error_if cnf.can_skip_level level_skipping) (
        first_error (error_if (not (cnf.order_start_level == 6)) start_level) (
          first_error (error_if (not (cnf.crp_fixed_prefix == 0)) fixed_prefix) (
            first_error (error_if (not (length cnf.checks == length setup_checks)) checks_missing)
              (first_error (check_checks cnf.checks setup_checks) (check_sync_conf cnf true))))))
