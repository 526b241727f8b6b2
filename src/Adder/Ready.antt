-- ===== src/Adder/Ready.antt =====
-- pkg/adder/adder.go and waiting_preunit.go: what the workers do with ready preunits.
use consensus_go.Base.{
  ℕ, zero, suc, Bool, true, false, not, List, [], ◌∷◌, Option, none, some, if◌then◌else◌,
}
use consensus_go.Base.Int.{ℤ, dec}
use consensus_go.Base.Outcome.{Outcome, ok, err, panic, ◌>>=◌}
use consensus_go.Gomel.Hash.{hash_eq, combine_hashes}
use consensus_go.Gomel.Id.{id}
use consensus_go.Gomel.Preunit.{Preunit}
use consensus_go.Gomel.Unit.{UnitInterface, to_hashes}
use consensus_go.Dag.Adding.{
  AddError, ambiguous_parents, unknown_parents, duplicate_unit, decode_parents, run_checks,
  insert_embedded,
}
use consensus_go.Adder.Maps.{erase_every, erase_hash}
use consensus_go.Adder.State.{fetch, Adder, AdderServices, change}
use consensus_go.Adder.Waiting.{send_if_ready}

-- The ids of the parents that a crown names, for a process and those after it.
abbrev pub parent_ids : List ℤ → ℕ → ℕ → List ℕ
parent_ids [] pid epoch = []
parent_ids (h ∷ hs) pid epoch = id h pid epoch ∷ parent_ids hs (suc pid) epoch

module _ {U : Type 0} where
  -- A preunit leaves both maps.
  abbrev pub forget : ℕ → Adder U → Adder U
  forget r s = record s {
    waiting = erase_hash (s.objects r).pu.hash s.waiting;
    waiting_by_id = erase_every (s.objects r).id s.waiting_by_id;
  }

  -- A loop over children, ended by a call that does not return.
  abbrev pub each : (ℕ → Adder U → Option (Adder U)) → List ℕ → Option (Adder U) → Option (Adder U)
  each f [] s = s
  each f (c ∷ cs) none = none
  each f (c ∷ cs) (some s) = each f cs (f c s)

  -- removeFailed, with fuel for the depth of its recursion: `none` is a depth that the fuel does not reach.
  unfoldable pub remove_failed : ℕ → ℕ → Adder U → Option (Adder U)
  remove_failed zero r s = none
  remove_failed (suc fuel) r s =
      each (remove_failed fuel) (s.objects r).children (some (forget r s))

  -- The loop of remove over the children of a preunit that was added.
  unfoldable pub notify : List ℕ → Adder U → Adder U
  notify [] s = s
  notify (c ∷ cs) s =
      notify cs (
        send_if_ready c (change c (λ wp. record wp { waiting_parents = dec wp.waiting_parents }) s))

  unfoldable pub remove : ℕ → ℕ → Adder U → Option (Adder U)
  remove fuel r s =
      if (s.objects r).failed
      then remove_failed fuel r s
      else some (notify (s.objects r).children (forget r s))

module _ {U E : Type 0} ⦃i : UnitInterface U⦄ (sv : AdderServices U E) where
  -- The loop over ambiguous parents: it ends at the first that the alerter cannot tell apart.
  abbrev pub choose : Preunit → ℕ → Option U × Option E → List (Option U) → List (Option U)
  choose pu source (p, problem) rest = elim (sv.resolve problem pu source) [
    | none ↦ p ∷ rest
    | some e ↦ []
  ]

  unfoldable pub choose_parents : List (List U) → Preunit → ℕ → List (Option U)
  choose_parents [] pu source = []
  choose_parents (us ∷ uss) pu source =
      choose pu source (sv.disambiguate us pu) (choose_parents uss pu source)

  -- The parents and whether `err` is set after step 1. The loop over ambiguous parents assigns to an `err` of its
  -- own, so the one that is tested after it is that of DecodeParents.
  abbrev pub parents_or_error :
      Preunit
      → ℕ
      → Outcome (AddError U) (List (Option U))
      → Outcome (AddError U) (List (Option U) × Bool)
  parents_or_error pu source panic = panic
  parents_or_error pu source (ok ps) = ok (ps, false)
  parents_or_error pu source (err (ambiguous_parents uss)) = ok (choose_parents uss pu source, true)
  parents_or_error pu source (err (unknown_parents n)) = ok ([], true)
  parents_or_error pu source (err (duplicate_unit u)) = ok ([], true)

  abbrev pub mark_failed : ℕ → Adder U → Adder U
  mark_failed r s = change r (λ wp. record wp { failed = true }) s

  -- Steps 3 and 4 for the unit that was built.
  abbrev pub insert_checked : ℕ → U → Option E → Adder U → Outcome (AddError U) (Adder U)
  insert_checked r u (some e) s = ok (mark_failed r s)
  insert_checked r u none s =
      insert_embedded (sv.embed u s.dag.max_units) s.dag >>= λ d. ok (record s { dag = d })

  -- The check of the control hash and what follows it.
  abbrev pub build_checked :
      ℕ → Preunit → ℕ → List (Option U) × Bool → Adder U → Outcome (AddError U) (Adder U)
  build_checked r pu source (ps, true) s = ok (mark_failed r s)
  build_checked r pu source (ps, false) s =
      if not (hash_eq (combine_hashes sv.shake (to_hashes ps)) pu.crown.control_hash)
      then ok (record (mark_failed r s) {
        requests = fetch source (parent_ids pu.crown.heights 0 pu.epoch_id) ∷ s.requests;
      })
      else (let u = sv.build_unit pu ps in
          insert_checked r u (sv.resolve (run_checks sv.checks u s.dag) (i.preunit u) source) s)

  -- handleReady up to the deferred call of remove.
  unfoldable pub try_adding : ℕ → Adder U → Outcome (AddError U) (Adder U)
  try_adding r s =
      let wp = s.objects r in
      parents_or_error wp.pu wp.source (decode_parents s.dag wp.pu) >>= λ ps.
      build_checked r wp.pu wp.source ps s

  -- handleReady; `fuel` is for remove.
  unfoldable pub handle_ready : ℕ → ℕ → Adder U → Outcome (AddError U) (Option (Adder U))
  handle_ready fuel r s = try_adding r s >>= λ s'. ok (remove fuel r s')
