-- ===== src/Orderer/Lookup.antt =====
-- pkg/orderer/orderer.go: what insert and UnitsByHash have to do with one another.
use consensus_go.Base.{
  ℕ, ◌≡◌, ◌≢◌, ◌<◌, refl, true, false, List, [], ◌∷◌, Option, none, some, arith, ltb, ◌==◌,
}
use consensus_go.Base.Outcome.{ok}
use consensus_go.Gomel.Unit.{UnitInterface, creator, epoch_id, hash}
use consensus_go.Orderer.State.{EpochInterface, Epoch, Orderer, get_epoch, new_epoch, start_epoch}
use consensus_go.Orderer.Operations.{units_by_hash, insert}

-- An orderer with a current epoch.
abbrev pub holding : {D : Type 0} → Epoch D → Option (Epoch D) → List ℕ → Orderer D
holding c p requests = record { current = some c; previous = p; gossip_requests = requests }

module _ {U E D : Type 0} ⦃i : UnitInterface U⦄ (parts : EpochInterface U E D) where
  -- A dag that took a unit in finds one with its hash: the embedded unit.
  abbrev pub Holds : U → D → Type 0
  Holds u d = (v : U) × (parts.unit_by_hash d (hash u) ≡ some v) × (hash v ≡ hash u)

module _ {U E D : Type 0} ⦃i : UnitInterface U⦄ (parts : EpochInterface U E D) (pid : ℕ) where
  -- The unit was inserted, and looking up its hash finds a unit with this hash.
  abbrev pub IsStored : U → Orderer D → Type 0
  IsStored u ord =
      (ord' : Orderer D) × (insert parts pid u ord ≡ ok ord')
      × ((v : U) × (units_by_hash parts (hash u ∷ []) ord' ≡ some v ∷ []) × (hash v ≡ hash u))

  module _ (stored : (u : U) (d d' : D) → parts.insert_unit u d ≡ ok d' → Holds parts u d') where
    insert_newer :
        (u : U) (c : Epoch D) (p : Option (Epoch D)) (requests : List ℕ) (d : D)
        → creator u ≡ pid
        → c.id < epoch_id u
        → parts.insert_unit u (parts.create (epoch_id u)) ≡ ok d
        → IsStored u (holding c p requests)
    unfolding insert get_epoch new_epoch units_by_hash
    insert_newer u c p requests d own newer taken =
        let mine : (creator u == pid) ≡ true = ground arith in
        let up : ltb c.id (epoch_id u) ≡ true = ground arith in
        let e = start_epoch parts (epoch_id u) in
        let (v, found, same) = stored u (parts.create (epoch_id u)) d taken in
        (
          holding (record e { parts = d }) (some c) requests,
          rw (mine, up) (rw (up, taken) refl),
          (v, rw found refl, same),
        )

    insert_latest :
        (u : U) (c : Epoch D) (p : Option (Epoch D)) (requests : List ℕ) (d : D)
        → creator u ≡ pid
        → epoch_id u ≡ c.id
        → parts.insert_unit u c.parts ≡ ok d
        → IsStored u (holding c p requests)
    unfolding insert get_epoch units_by_hash
    insert_latest u c p requests d own same taken =
        let mine : (creator u == pid) ≡ true = ground arith in
        let up : ltb c.id (epoch_id u) ≡ false = ground arith in
        let eq : (epoch_id u == c.id) ≡ true = ground arith in
        let (v, found, alike) = stored u c.parts d taken in
        (
          holding (record c { parts = d }) p requests,
          rw (mine, up, eq, taken) refl,
          (v, rw found refl, alike),
        )

    insert_before :
        (u : U) (c p : Epoch D) (requests : List ℕ) (d : D)
        → creator u ≡ pid
        → p.id < c.id
        → epoch_id u ≡ p.id
        → parts.unit_by_hash c.parts (hash u) ≡ none
        → parts.insert_unit u p.parts ≡ ok d
        → IsStored u (holding c (some p) requests)
    unfolding insert get_epoch units_by_hash
    insert_before u c p requests d own older same fresh taken =
        let mine : (creator u == pid) ≡ true = ground arith in
        let up : ltb c.id (epoch_id u) ≡ false = ground arith in
        let eq : (epoch_id u == c.id) ≡ false = ground arith in
        let eq' : (epoch_id u == p.id) ≡ true = ground arith in
        let (v, found, alike) = stored u p.parts d taken in
        (
          holding c (some (record p { parts = d })) requests,
          rw (mine, up, eq, eq', taken) refl,
          (v, rw (fresh, found) refl, alike),
        )

    -- On an orderer with a current epoch and an older previous one, insert of our own unit: where the dag of the
    -- unit's epoch takes the unit in, the epoch being the current one or a newer one, UnitsByHash finds a unit with its
    -- hash afterwards; so too if the epoch is the previous one and the current one has no unit with this hash;
    -- and a unit of any other older epoch changes nothing, nor does a unit of another creator. It is
    -- assumed that a dag that took a unit in finds one with its hash.
    pub insert-units_by_hash :
        (u : U) (c p : Epoch D) (requests : List ℕ) (d : D)
        → p.id < c.id
        → (creator u ≡ pid
            → c.id < epoch_id u
            → parts.insert_unit u (parts.create (epoch_id u)) ≡ ok d
            → IsStored u (holding c (some p) requests))
          × (creator u ≡ pid
              → epoch_id u ≡ c.id
              → parts.insert_unit u c.parts ≡ ok d
              → IsStored u (holding c (some p) requests))
          × (creator u ≡ pid
              → epoch_id u ≡ p.id
              → parts.unit_by_hash c.parts (hash u) ≡ none
              → parts.insert_unit u p.parts ≡ ok d
              → IsStored u (holding c (some p) requests))
          × (epoch_id u < c.id
              → epoch_id u ≢ p.id
              → insert parts pid u (holding c (some p) requests) ≡ ok (holding c (some p) requests))
          × (creator u ≢ pid
              → insert parts pid u (holding c (some p) requests) ≡ ok (holding c (some p) requests))
    unfolding insert get_epoch
    insert-units_by_hash u c p requests d older = (
      λ own newer taken. insert_newer u c (some p) requests d own newer taken,
      λ own same taken. insert_latest u c (some p) requests d own same taken,
      λ own same fresh taken. insert_before u c p requests d own older same fresh taken,
      λ old other. ground arith,
      λ foreign. ground arith,
    )
