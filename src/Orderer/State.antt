-- ===== src/Orderer/State.antt =====
-- pkg/orderer/epoch.go and orderer.go: epochs, and how the orderer finds and makes them.
use consensus_go.Base.{ℕ, Bool, true, false, List, [], Option, none, some, ltb, ◌==◌, if◌then◌else◌}
use consensus_go.Base.Int.{ℤ}
use consensus_go.Base.Outcome.{Outcome, ok, panic, ◌>>=◌}
use consensus_go.Gomel.Hash.{Hash}
use consensus_go.Gomel.Preunit.{Preunit}
use consensus_go.Dag.Slots.{Slotted}

-- What the orderer calls in an epoch: the dag, the adder in front of it, and the extender and the random source
-- on it, whose state together is a `D`. `E` are the errors of the adder. The calls that may panic answer an
-- outcome; insert_unit is Insert of the dag, which embeds the unit and stores the embedded one.
pub record EpochInterface (U E D : Type 0) : Type 0 where
  pub create : ℕ → D
  pub add_to_adder : ℕ → List Preunit → D → Outcome E (D × List (Option E))
  pub insert_unit : U → D → Outcome E D
  pub unit_by_hash : D → Hash → Option U
  pub units_by_id : D → ℕ → List U
  pub units_over : D → Option (List ℤ) → Outcome E (List U)
  pub maximal : D → Slotted U
  pub data_to_include : D → List (Option U) → ℕ → Outcome E (List ℕ)

-- `more_closed` is whether the channel `more` is closed; nothing is ever sent on it.
pub record Epoch (D : Type 0) : Type 0 where
  pub id : ℕ
  pub parts : D
  pub more_closed : Bool

-- The pointers `current` and `previous`, and the calls of RequestGossip, the latest first.
pub record Orderer (D : Type 0) : Type 0 where
  pub current : Option (Epoch D)
  pub previous : Option (Epoch D)
  pub gossip_requests : List ℕ

-- Which of the two epochs a pointer is.
pub data Which : Type 0 where
  latest before : Which

abbrev pub new_orderer : {D : Type 0} → Orderer D
new_orderer = record { current = none; previous = none; gossip_requests = [] }

module _ {D : Type 0} where
  -- WantsMoreUnits: a receive from a closed channel succeeds.
  abbrev pub wants_more_units : Epoch D → Bool
  wants_more_units ep = ep.more_closed

  -- NoMoreUnits: closing a closed channel is a panic.
  abbrev pub no_more_units : {E : Type 0} → Epoch D → Outcome E (Epoch D)
  no_more_units ep = if ep.more_closed then panic else ok (record ep { more_closed = true })

  abbrev pub read : Which → Orderer D → Option (Epoch D)
  read latest ord = ord.current
  read before ord = ord.previous

  abbrev pub write : Which → Epoch D → Orderer D → Orderer D
  write latest ep ord = record ord { current = some ep }
  write before ep ord = record ord { previous = some ep }

  -- The part of getEpoch and newEpoch for an epoch that is older than the current one: reading the id of a
  -- previous epoch that is nil is a panic.
  abbrev pub is_previous : {E : Type 0} → ℕ → Option (Epoch D) → Outcome E (Option Which)
  is_previous epoch none = panic
  is_previous epoch (some ep) = ok (if epoch == ep.id then some before else none)

  abbrev pub get_from :
      {E : Type 0} → ℕ → Option (Epoch D) → Option (Epoch D) → Outcome E (Option Which × Bool)
  get_from epoch none previous = ok (none, true)
  get_from epoch (some ep) previous =
      if ltb ep.id epoch
      then ok (none, true)
      else if epoch == ep.id
      then ok (some latest, false)
      else is_previous epoch previous >>= λ w. ok (w, false)

  -- getEpoch
  unfoldable pub get_epoch : {E : Type 0} → ℕ → Orderer D → Outcome E (Option Which × Bool)
  get_epoch epoch ord = get_from epoch ord.current ord.previous

module _ {U E D : Type 0} (parts : EpochInterface U E D) where
  -- newEpoch of epoch.go.
  abbrev pub start_epoch : ℕ → Epoch D
  start_epoch id = record { id = id; parts = parts.create id; more_closed = false }

  -- The current epoch becomes the previous one, which is closed and dropped.
  abbrev pub push_epoch : ℕ → Orderer D → Orderer D
  push_epoch epoch ord = record ord { current = some (start_epoch epoch); previous = ord.current }

  abbrev pub new_from : ℕ → Option (Epoch D) → Orderer D → Outcome E (Option Which × Orderer D)
  new_from epoch none ord = ok (some latest, push_epoch epoch ord)
  new_from epoch (some ep) ord =
      if ltb ep.id epoch
      then ok (some latest, push_epoch epoch ord)
      else if epoch == ep.id
      then ok (some latest, ord)
      else is_previous epoch ord.previous >>= λ w. ok (w, ord)

  -- newEpoch of the orderer.
  unfoldable pub new_epoch : ℕ → Orderer D → Outcome E (Option Which × Orderer D)
  new_epoch epoch ord = new_from epoch ord.current ord
