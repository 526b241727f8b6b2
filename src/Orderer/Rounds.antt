-- ===== src/Orderer/Rounds.antt =====
-- pkg/orderer/orderer.go: in which order the preblocks of several epochs come.
use consensus_go.Base.{
  ℕ, ◌≡◌, ◌<◌, ◌≤◌, refl, sym, ◌∙◌, true, false, List, [], ◌∷◌, ◌++◌, append_assoc, append-nil,
  some, arith, leb, ◌==◌, if◌then◌else◌, Bool-cases, inl, inr,
}
use consensus_go.Base.Outcome.{ok}
use consensus_go.Gomel.Unit.{UnitInterface, epoch_id}
use consensus_go.Orderer.State.{EpochInterface}
use consensus_go.Orderer.Timing.{Timing, last_of, handle_round, handle_timing_rounds}

module _ {U E D : Type 0} ⦃i : UnitInterface U⦄ (parts : EpochInterface U E D)
    (last_level number_of_epochs : ℕ) where
  abbrev pub EndsIn : List U → ℕ → Type 0
  EndsIn round epoch =
      (tu : U) × (last_of round ≡ some tu) × (epoch_id tu ≡ epoch) × (i.level tu < last_level)

  round_below :
      (round : List U) (epoch : ℕ) (t : Timing U D)
      → EndsIn round epoch
      → handle_round parts last_level number_of_epochs round (last_of round) t
        ≡ ok (record t {
          current_epoch = epoch;
          preblocks =
              if leb t.current_epoch epoch then t.preblocks ++ (round ∷ []) else t.preblocks;
        })
  round_below round epoch t (tu, e, ep, low) =
      let early : (i.level tu == last_level) ≡ false = ground arith in
      let fits : leb (i.level tu) last_level ≡ true = ground arith in
      rw (e, early, fits, ep)
        (elim (Bool-cases (leb t.current_epoch epoch)) [
          | inl up ↦ rw up refl
          | inr down ↦ rw down refl
        ])

  -- Of three rounds, each with a timing unit below the last level, of which the first is of a later
  -- epoch than the other two, which are of one epoch, the first and the third become preblocks, in this order,
  -- and the second does not: a preblock of an epoch can come after a preblock of a later epoch.
  -- The first is not of an earlier epoch than the round before it.
  pub handle_timing_rounds_disorder :
      (a b c : List U) (early late : ℕ) (t : Timing U D)
      → early < late
      → t.current_epoch ≤ late
      → EndsIn a late
      → EndsIn b early
      → EndsIn c early
      → (t' : Timing U D) × (handle_timing_rounds parts last_level number_of_epochs
            (a ∷ b ∷ c ∷ [])
            t
          ≡ ok t')
        × (t'.preblocks ≡ t.preblocks ++ (a ∷ c ∷ []))
  unfolding handle_timing_rounds
  handle_timing_rounds_disorder a b c early late t h first ea eb ec =
      let up : leb t.current_epoch late ≡ true = ground arith in
      let down : leb late early ≡ false = ground arith in
      let same : leb early early ≡ true = ground arith in
      (
        record t { current_epoch = early; preblocks = (t.preblocks ++ (a ∷ [])) ++ (c ∷ []) },
        rw (round_below a late t ea, up)
            (rw (round_below b early _ eb, down) (rw (round_below c early _ ec, same) refl)),
        append_assoc t.preblocks (a ∷ []) (c ∷ []),
      )

  -- The epochs of the rounds do not decrease, from `epoch` on, and no round is of the last level.
  abbrev pub Ascends : ℕ → List (List U) → Type 0
  Ascends epoch [] = Unit
  Ascends epoch (round ∷ rounds) =
      (next : ℕ) × (epoch ≤ next) × EndsIn round next × Ascends next rounds

  -- Where the epochs of the rounds do not decrease, from the epoch of the last round on, and all
  -- timing units are below the last level, every round becomes a preblock, in the order of the rounds; the epochs
  -- of the orderer, what was sent to the creator and the ticker stay as they are.
  pub handle_timing_rounds_in_order :
      (rounds : List (List U)) (t : Timing U D)
      → Ascends t.current_epoch rounds
      → (t' : Timing U D) × (handle_timing_rounds parts last_level number_of_epochs rounds t
          ≡ ok t')
        × (t'.preblocks ≡ t.preblocks ++ rounds)
        × (t'.orderer ≡ t.orderer)
        × (t'.last_timing ≡ t.last_timing)
        × (t'.ticking ≡ t.ticking)
  unfolding handle_timing_rounds
  handle_timing_rounds_in_order [] t v = (t, refl, sym (append-nil t.preblocks), refl, refl, refl)
  handle_timing_rounds_in_order (round ∷ rounds) t (next, h, e, v) =
      let up : leb t.current_epoch next ≡ true = ground arith in
      let t₁ = record t { current_epoch = next; preblocks = t.preblocks ++ (round ∷ []) } in
      let (t', done, blocks, kept, sent, ticks) = handle_timing_rounds_in_order rounds t₁ v in
      (
        t',
        rw (round_below round next t e, up) done,
        blocks ∙ append_assoc t.preblocks (round ∷ []) rounds,
        kept,
        sent,
        ticks,
      )
