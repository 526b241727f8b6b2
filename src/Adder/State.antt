-- ===== src/Adder/State.antt =====
-- pkg/adder: the adder's state, waiting and missing preunits.
use consensus_go.Base.{ℕ, Bool, List, Option, ◌==◌, if◌then◌else◌}
use consensus_go.Base.Int.{ℤ}
use consensus_go.Gomel.Hash.{Hash}
use consensus_go.Gomel.Preunit.{Preunit}
use consensus_go.Dag.Bag.{Bag}
use consensus_go.Dag.Slots.{Slotted}
use consensus_go.Dag.Store.{Store}

-- An object that others refer to by its number. `children` are the numbers of other waiting preunits.
pub record WaitingPreunit : Type 0 where
  pub pu : Preunit
  pub id : ℕ
  pub source : ℕ
  pub missing_parents : ℤ
  pub waiting_parents : ℤ
  pub children : List ℕ
  pub failed : Bool

-- `requested` is the time of the last request, `none` for the zero time.
pub record MissingPreunit : Type 0 where
  pub needed_by : List ℕ
  pub requested : Option ℕ

-- What the adder asks of the syncer.
pub data Request : Type 0 where
  gossip : ℕ → Request
  fetch : ℕ → List ℕ → Request

-- The members of the errors that AddPreunits answers.
pub data AddingError (U : Type 0) : Type 0 where
  duplicate_unit : U → AddingError U
  duplicate_preunit : Preunit → AddingError U
  unknown_parents : ℤ → AddingError U
  invalid_creator : AddingError U
  invalid_epoch : AddingError U
  invalid_signature : AddingError U

-- The waiting preunits are `objects`, of which those below `allocated` exist; `ready` are those that were sent to
-- the workers, the channels of all workers in one list; `forks` and `requests` are what the alerter and the syncer
-- were told, the latest first.
pub record Adder (U : Type 0) : Type 0 where
  pub dag : Store U
  pub objects : ℕ → WaitingPreunit
  pub allocated : ℕ
  pub waiting : Bag ℕ
  pub waiting_by_id : List (ℕ × ℕ)
  pub missing : List (ℕ × MissingPreunit)
  pub ready : List ℕ
  pub finished : Bool
  pub forks : List (Preunit × Preunit)
  pub requests : List Request

-- The settings, the signatures and what an adder calls that other parts implement: building, checking and
-- embedding a unit, and the alerter's Disambiguate and ResolveMissingCommitment. An error of a check or of the
-- alerter is an `E`.
pub record AdderServices (U E : Type 0) : Type 0 where
  pub fetch_interval : ℕ
  pub gossip_above : ℕ
  pub shake : List ℕ → Hash
  pub verify_signature : Preunit → Bool
  pub build_unit : Preunit → List (Option U) → U
  pub checks : List (U → Store U → Option E)
  pub embed : U → Slotted U → U
  pub disambiguate : List U → Preunit → Option U × Option E
  pub resolve : Option E → Preunit → ℕ → Option E

module _ {U : Type 0} where
  -- A write to an object.
  abbrev pub change : ℕ → (WaitingPreunit → WaitingPreunit) → Adder U → Adder U
  change r f s = record s { objects = λ q. if q == r then f (s.objects q) else s.objects q }
