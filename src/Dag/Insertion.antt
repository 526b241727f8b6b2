-- ===== src/Dag/Insertion.antt =====
-- pkg/dag/adding.go: the indexes of a dag after Insert.
use consensus_go.Base.{
  ℕ, ◌+◌, ◌≡◌, ◌<◌, refl, ◌∙◌, subst, true, false, ◌&&◌, List, [], ◌∷◌, ◌++◌, none, some, arith,
  ◌==◌, ==_iff, ==_refl, ◌≢◌, ◌⊎◌, if◌then◌else◌, length, All, All-mono, All-append, Bool-cases,
  inl, inr,
}
use consensus_go.Base.Outcome.{ok}
use consensus_go.Gomel.Hash.{Hash, hash_eq, hash_eq_iff, hash_eq_refl}
use consensus_go.Gomel.Unit.{UnitInterface, height, creator, hash, above}
use consensus_go.Dag.Slots.{Slotted, get, get-put, length-put, get-new_slotted, length-new_slotted}
use consensus_go.Dag.Bag.{get_one, add, get_one-add}
use consensus_go.Dag.Fibers.{new_fiber_map, FiberMap, units_at}
use consensus_go.Dag.Fibers.Growth.{
  Adds, add_unit-Adds, new_fiber_map-IsFiberMap, units_at-new_fiber_map,
}
use consensus_go.Dag.Store.{Store, new_store, IsPlaced, IsLevelled, IsCoherent, get_unit}
use consensus_go.Dag.Adding.{insert_embedded, update_maximal, not_below}

-- What a dag needs to take a unit without a panic, and with no unit lost: a creator of the committee, a
-- height and a level at most ten past the ends of the indexes, and a hash that is new.
module _ {U : Type 0} ⦃i : UnitInterface U⦄ where
  pub record IsInsertable (d : Store U) (u : U) : Type 0 where
    pub known_creator : creator u < d.n_proc
    pub height_near : height u < d.height_units.len + 10
    pub level_near : i.level u < d.level_units.len + 10
    pub new_hash : get_unit d (hash u) ≡ none

  -- An entry that was found stays found when another hash is added.
  still_found :
      (d : Store U) (u v w : U) (k : Hash)
      → get_unit d (hash u) ≡ none
      → get_one d.units k ≡ some v
      → get_one (add d.units (hash u) w) k ≡ some v
  still_found d u v w k fresh e = elim (Bool-cases (hash_eq (hash u) k)) [
    | inl hit ↦ let same : hash u ≡ k = (hash_eq_iff (hash u) k).0 hit in cc (fresh, e, same)
    | inr miss ↦ rw (get_one-add d.units (hash u) w k, miss) e
  ]

  -- A predicate on the entries of an index carries over to the index with one more unit.
  Adds-All {κ} :
      {fm fm' : FiberMap U} {v pid : ℕ} {u : U} (P Q : ℕ → ℕ → U → Type κ)
      → Adds fm v pid u fm'
      → ((w q : ℕ) (a : U) → P w q a → Q w q a)
      → Q v pid u
      → ((w q : ℕ) → All (P w q) (units_at fm w q))
      → (w q : ℕ) → All (Q w q) (units_at fm' w q)
  Adds-All {fm} {fm'} {v} {pid} {u} P Q adds keep here all w q =
      elim (Bool-cases (v == w && pid == q)) [
        | inl hit ↦
            let (ev, ep) = both v w pid q hit in
            rw (adds.shows w q, hit)
              (subst (λ x. All (Q x q) (units_at fm v pid ++ (u ∷ []))) ev
                (subst (λ y. All (Q v y) (units_at fm v pid ++ (u ∷ []))) ep
                  (All-append (Q v pid) (units_at fm v pid) (u ∷ [])
                    (All-mono (P v pid) (Q v pid) (units_at fm v pid) (keep v pid) (all v pid))
                    (here, tt))))
        | inr miss ↦
            rw (adds.shows w q, miss)
              (All-mono (P w q) (Q w q) (units_at fm w q) (keep w q) (all w q))
      ]
    where
      both : (a b c d : ℕ) → (a == b && c == d) ≡ true → (a ≡ b) × (c ≡ d)
      both a b c d h = ground arith

  All-not_below {κ} : (P : U → Type κ) (u : U) (vs : List U) → All P vs → All P (not_below u vs)
  unfolding not_below
  All-not_below P u [] a = tt
  All-not_below P u (v ∷ vs) (a, rest) = elim (Bool-cases (above (some u) (some v))) [
    | inl under ↦ rw under (All-not_below P u vs rest)
    | inr free ↦ rw free (a, All-not_below P u vs rest)
  ]

  max_placed_after :
      (u : U) (maxes : Slotted U)
      → creator u < length maxes
      → ((c : ℕ) → All (λ v. creator v ≡ c) (get maxes c))
      → (c : ℕ) → All (λ v. creator v ≡ c) (get (update_maximal u maxes) c)
  unfolding update_maximal
  max_placed_after u maxes h all c = elim (Bool-cases (creator u == c)) [
    | inl hit ↦
        rw (get-put maxes (creator u) (not_below u (get maxes (creator u)) ++ (u ∷ [])) c h, hit)
          (subst (λ k. All (λ v. creator v ≡ k) (not_below u (get maxes (creator u)) ++ (u ∷ [])))
            ((==_iff (creator u) c).0 hit)
            (All-append (λ v. creator v ≡ creator u) (not_below u (get maxes (creator u))) (u ∷ [])
              (All-not_below (λ v. creator v ≡ creator u) u _ (all (creator u))) (refl, tt)))
    | inr miss ↦
        rw (get-put maxes (creator u) (not_below u (get maxes (creator u)) ++ (u ∷ [])) c h, miss)
          (all c)
  ]

  -- The units of a list that `u` is not above.
  abbrev pub AreNotBelow : U → List U → List U → Type 0
  AreNotBelow u vs [] = All (λ v. above (some u) (some v) ≡ true) vs
  AreNotBelow u [] (w ∷ ws) = ⊥
  AreNotBelow u (v ∷ vs) (w ∷ ws) =
      ((above (some u) (some v) ≡ true) × AreNotBelow u vs (w ∷ ws))
      ⊎ ((above (some u) (some v) ≡ false) × (w ≡ v) × AreNotBelow u vs ws)

  not_below-AreNotBelow : (u : U) (vs : List U) → AreNotBelow u vs (not_below u vs)
  unfolding not_below
  not_below-AreNotBelow u [] = tt
  not_below-AreNotBelow u (v ∷ vs) = elim (Bool-cases (above (some u) (some v))) [
    | inl under ↦ rw under (skip under (not_below u vs) (not_below-AreNotBelow u vs))
    | inr free ↦ rw free (inr (free, refl, not_below-AreNotBelow u vs))
  ]
    where
      skip :
          above (some u) (some v) ≡ true
          → (ws : List U) → AreNotBelow u vs ws
          → AreNotBelow u (v ∷ vs) ws
      skip under [] all = (under, all)
      skip under (w ∷ ws) all = inl (under, all)

  -- The maximal units of a process after its unit `u` came: those that `u` is not above, and `u`.
  abbrev pub IsMaximalAfter : U → List U → List U → Type 0
  IsMaximalAfter u olds news = (rest : List U) × (news ≡ rest ++ (u ∷ [])) × AreNotBelow u olds rest

  update_maximal-IsMaximalAfter :
      (u : U) (maxes : Slotted U)
      → creator u < length maxes
      → IsMaximalAfter u (get maxes (creator u)) (get (update_maximal u maxes) (creator u))
        × ((c : ℕ) → creator u ≢ c → get (update_maximal u maxes) c ≡ get maxes c)
  unfolding update_maximal
  update_maximal-IsMaximalAfter u maxes h =
      let rest = not_below u (get maxes (creator u)) in
      (
        (
          rest,
          get-put maxes (creator u) (rest ++ (u ∷ [])) (creator u) h
              ∙ rw (==_refl (creator u)) refl,
          not_below-AreNotBelow u (get maxes (creator u)),
        ),
        λ c other.
            let miss : (creator u == c) ≡ false = ground (arith, other) in
            get-put maxes (creator u) (rest ++ (u ∷ [])) c h ∙ rw miss refl,
      )

  -- What a successful insertion leaves behind: a dag whose indexes agree, in which the new unit is found
  -- by its hash and stands last at its height, at its level and among the maximal units of its creator,
  -- of which those below it are gone, and every other entry is as it was.
  pub record Inserted (d : Store U) (u : U) (d' : Store U) : Type 0 where
    pub coherent : IsCoherent d'
    pub same_committee : (d'.n_proc ≡ d.n_proc) × (d'.epoch ≡ d.epoch)
    pub found : (k : Hash) → get_unit d' k ≡ (if hash_eq (hash u) k then some u else get_unit d k)
    pub at_heights :
        (h c : ℕ)
        → units_at d'.height_units h c ≡ (
            if height u == h && creator u == c
            then units_at d.height_units (height u) (creator u) ++ (u ∷ [])
            else units_at d.height_units h c)
    pub at_levels :
        (l c : ℕ)
        → units_at d'.level_units l c ≡ (
            if i.level u == l && creator u == c
            then units_at d.level_units (i.level u) (creator u) ++ (u ∷ [])
            else units_at d.level_units l c)
    pub at_maximal : IsMaximalAfter u (get d.max_units (creator u)) (get d'.max_units (creator u))
    pub same_maximal : (c : ℕ) → creator u ≢ c → get d'.max_units c ≡ get d.max_units c

  -- Inserting an insertable unit into a dag whose indexes agree never panics, and the outcome is that
  -- dag with the one unit added to the indexes; from the maximal units of its creator those below it are taken.
  pub insert_embedded-Inserted :
      {E : Type 0} (d : Store U) (u : U)
      → IsCoherent d
      → IsInsertable d u
      → (d' : Store U) × (insert_embedded {E = E} u d ≡ ok d') × Inserted d u d'
  unfolding insert_embedded update_maximal
  insert_embedded-Inserted {E} d u v w =
      let c_ok : creator u < d.height_units.width =
        omega (arith, w.known_creator, v.heights_width) in
      let l_ok : creator u < d.level_units.width = omega (arith, w.known_creator, v.levels_width) in
      let (hs, eh, ah) =
        add_unit-Adds {E = E} d.height_units (height u) (creator u) u v.heights_shape w.height_near
          c_ok in
      let (new_max, old_max) =
        update_maximal-IsMaximalAfter u d.max_units (omega (arith, w.known_creator, v.max_width)) in
      let (ls, el, al) =
        add_unit-Adds {E = E} d.level_units (i.level u) (creator u) u v.levels_shape w.level_near
          l_ok in
      (
        record d {
          units = add d.units (hash u) u;
          level_units = ls;
          height_units = hs;
          max_units = update_maximal u d.max_units;
        },
        rw eh (rw el refl),
        record {
          coherent = record {
            heights_shape = ah.shape;
            levels_shape = al.shape;
            heights_width = ah.same_width ∙ v.heights_width;
            levels_width = al.same_width ∙ v.levels_width;
            max_width = length-put d.max_units (creator u) _ ∙ v.max_width;
            heights_placed =
                Adds-All (IsPlaced d.units) (IsPlaced (add d.units (hash u) u)) ah
                  (λ h c x (a, b, e). (a, b, still_found d u x u (hash x) w.new_hash e))
                  (refl, refl, added) v.heights_placed;
            levels_placed =
                Adds-All (IsLevelled d.units) (IsLevelled (add d.units (hash u) u)) al
                  (λ h c x (a, b, e). (a, b, still_found d u x u (hash x) w.new_hash e))
                  (refl, refl, added) v.levels_placed;
            max_placed =
                max_placed_after u d.max_units (omega (arith, w.known_creator, v.max_width))
                  v.max_placed;
          };
          same_committee = (refl, refl);
          found = get_one-add d.units (hash u) u;
          at_heights = ah.shows;
          at_levels = al.shows;
          at_maximal = new_max;
          same_maximal = old_max;
        },
      )
    where
      added : get_one (add d.units (hash u) u) (hash u) ≡ some u
      added = rw (get_one-add d.units (hash u) u (hash u), hash_eq_refl (hash u)) refl

  -- A dag that was just made agrees in its indexes: it has no unit.
  pub new_store-IsCoherent :
      (n_proc epoch epoch_length : ℕ) → IsCoherent (new_store {U = U} n_proc epoch epoch_length)
  unfolding new_store
  new_store-IsCoherent n_proc epoch epoch_length = record {
    heights_shape = new_fiber_map-IsFiberMap n_proc epoch_length;
    levels_shape = new_fiber_map-IsFiberMap n_proc epoch_length;
    heights_width = unfold new_fiber_map in refl;
    levels_width = unfold new_fiber_map in refl;
    max_width = length-new_slotted U n_proc;
    heights_placed = λ h c. rw (units_at-new_fiber_map {U = U} n_proc epoch_length h c) tt;
    levels_placed = λ l c. rw (units_at-new_fiber_map {U = U} n_proc epoch_length l c) tt;
    max_placed = λ c. rw (get-new_slotted {U = U} n_proc c) tt;
  }
