-- ===== src/Orderer/Timing.antt =====
-- pkg/orderer/orderer.go: handleTimingRounds, which turns ordered rounds into preblocks.
use consensus_go.Base.{
  ℕ, ◌+◌, Bool, false, ◌&&◌, List, [], ◌∷◌, ◌++◌, Option, none, some, leb, ◌==◌, if◌then◌else◌,
}
use consensus_go.Base.Outcome.{Outcome, ok, panic, ◌>>=◌}
use consensus_go.Gomel.Unit.{UnitInterface, epoch_id}
use consensus_go.Orderer.State.{EpochInterface, Orderer}
use consensus_go.Orderer.Operations.{finish_epoch}

-- The orderer, the local variable `current`, what was sent on lastTiming and given to the preblock maker, and
-- whether the ticker runs.
pub record Timing (U D : Type 0) : Type 0 where
  pub orderer : Orderer D
  pub current_epoch : ℕ
  pub last_timing : List U
  pub preblocks : List (List U)
  pub ticking : Bool

abbrev pub last_of : {A : Type 0} → List A → Option A
last_of [] = none
last_of (x ∷ []) = some x
last_of (x ∷ y ∷ ys) = last_of (y ∷ ys)

module _ {U E D : Type 0} ⦃i : UnitInterface U⦄ (parts : EpochInterface U E D)
    (last_level number_of_epochs : ℕ) where
  -- What is done for the last timing unit of an epoch.
  abbrev pub finish_round : U → Timing U D → Outcome E (Timing U D)
  finish_round tu t =
      if i.level tu == last_level
      then (finish_epoch parts (epoch_id tu) t.orderer >>= λ ord. ok (record t {
        orderer = ord;
        last_timing = t.last_timing ++ (tu ∷ []);
        ticking = if epoch_id tu + 1 == number_of_epochs then false else t.ticking;
      }))
      else ok t

  abbrev pub makes_preblock : ℕ → U → Bool
  makes_preblock current tu = leb current (epoch_id tu) && leb (i.level tu) last_level

  abbrev pub emit_round : List U → U → Timing U D → Timing U D
  emit_round round tu t = record t {
    current_epoch = epoch_id tu;
    preblocks =
        if makes_preblock t.current_epoch tu then t.preblocks ++ (round ∷ []) else t.preblocks;
  }

  -- One round; the last unit of an empty one is read out of range.
  abbrev pub handle_round : List U → Option U → Timing U D → Outcome E (Timing U D)
  handle_round round none t = panic
  handle_round round (some tu) t = finish_round tu t >>= λ t'. ok (emit_round round tu t')

  unfoldable pub handle_timing_rounds : List (List U) → Timing U D → Outcome E (Timing U D)
  handle_timing_rounds [] t = ok t
  handle_timing_rounds (round ∷ rounds) t =
      handle_round round (last_of round) t >>= λ t'. handle_timing_rounds rounds t'
