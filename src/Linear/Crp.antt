-- ===== src/Linear/Crp.antt =====
-- pkg/linear/crp.go: the order in which the units of a level are tried.
use consensus_go.Base.{
  ℕ, zero, suc, ◌+◌, ◌%◌, ◌^◌, Bool, true, false, List, [], ◌∷◌, ◌++◌, map, Option, none, some, ltb,
  if◌then◌else◌, take, drop, is_empty,
}
use consensus_go.Gomel.Hash.{Hash, less_than}
use consensus_go.Gomel.Unit.{UnitInterface, hash}
use consensus_go.Dag.Slots.{Slotted, get}
use consensus_go.Dag.Store.{Store, units_on_level}
use consensus_go.Linear.Votes.{RandomBytes, ◌>>=◌}
use consensus_go.Linear.Sort.{sort_slice}

-- `count` numbers from `start` on.
unfoldable pub range : ℕ → ℕ → List ℕ
range start zero = []
range start (suc count) = start ∷ range (start + 1) count

abbrev pub shift_pid : ℕ → ℕ → Option ℕ → ℕ → ℕ
shift_pid n_proc level none pid = (pid + level) % n_proc
shift_pid n_proc level (some c) pid = ((pid + level) % n_proc + c) % 2 ^ 16 % n_proc

-- splitProcesses, with the creator of the previous timing unit.
unfoldable pub split_processes : ℕ → ℕ → ℕ → Option ℕ → List ℕ × List ℕ
split_processes n_proc prefix_len level tu_creator =
    let len = if ltb n_proc prefix_len then n_proc else prefix_len in
    let pids = map (shift_pid n_proc level tu_creator) (range 0 n_proc) in
    (take len pids, drop len pids)

module _ {U : Type 0} ⦃i : UnitInterface U⦄ where
  unfoldable pub units_of : Slotted U → List ℕ → List U
  units_of su [] = []
  units_of su (pid ∷ pids) = get su pid ++ units_of su pids

  unfoldable pub default_permutation : Store U → ℕ → List ℕ → List U
  default_permutation d level pids =
      sort_slice (λ u v. less_than (hash u) (hash v)) (units_of (units_on_level d level) pids)

  -- The units with their priorities; `none` where random bytes are missing. `shake` is
  -- sha3.ShakeSum128 into 32 bytes.
  unfoldable pub prioritized :
      (List ℕ → Hash) → RandomBytes → Slotted U → ℕ → List ℕ → Option (List (Hash × U))
  prioritized shake rs su level [] = some []
  prioritized shake rs su level (pid ∷ pids) =
      let rest = prioritized shake rs su level pids in
      if is_empty (get su pid)
      then rest
      else (rs pid (level + 5) >>= λ bytes. rest >>= λ entries.
          some (map (λ u. (shake (bytes ++ hash u), u)) (get su pid) ++ entries))

  -- Two units with one priority are a panic in Go; here they keep their order.
  unfoldable pub random_permutation :
      (List ℕ → Hash) → RandomBytes → Store U → ℕ → List ℕ → Option (List U)
  random_permutation shake rs d level pids =
      prioritized shake rs (units_on_level d level) level pids >>= λ entries.
      some (map (λ e. e.1) (sort_slice (λ a b. less_than a.0 b.0) entries))

  -- A loop over units that the work function ends by false; `none` is a panic of the work.
  unfoldable pub work_through :
      {S : Type 0} → (U → S → Option (S × Bool)) → List U → S → Option (S × Bool)
  work_through work [] s = some (s, true)
  work_through work (u ∷ us) s = work u s >>= λ (s', more).
      let rest = work_through work us s' in if more then rest else some (s', false)

  abbrev pub work_suffix :
      {S : Type 0} → (U → S → Option (S × Bool)) → Option (List U) → S → Option (S × Bool)
  work_suffix work none s = some (s, false)
  work_suffix work (some us) s = work_through work us s >>= λ (s', _). some (s', true)

  -- CRPIterate: the state after the work, and whether the random bytes were there when needed.
  unfoldable pub crp_iterate :
      {S : Type 0}
      → (List ℕ → Hash)
      → RandomBytes
      → Store U
      → ℕ
      → ℕ
      → Option ℕ
      → (U → S → Option (S × Bool))
      → S
      → Option (S × Bool)
  crp_iterate shake rs d fixed_prefix level tu_creator work s =
      let split = split_processes d.n_proc fixed_prefix level tu_creator in
      work_through work (default_permutation d level split.0) s >>= λ (s', more).
      let suffix = work_suffix work (random_permutation shake rs d level split.1) s' in
      if more then suffix else some (s', true)
