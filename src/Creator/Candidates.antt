-- ===== src/Creator/Candidates.antt =====
-- pkg/creator/creator.go: the counters of updateCandidates against LevelFromParents.
use consensus_go.Base.{
  ℕ, zero, suc, ◌+◌, ◌-◌, ◌%◌, ◌^◌, ◌≡◌, ◌<◌, ◌≤◌, refl, ap, ◌∙◌, true, false, List, [], ◌∷◌, map,
  Option, none, some, arith, ltb, leb, ◌==◌, if◌then◌else◌, length, set, length-set, Bool-cases,
  inl, inr, All, replicate,
}
use consensus_go.Gomel.Unit.{UnitInterface, slot, creator, count_level, level_from_parents}
use consensus_go.Creator.Consistency.{rung}
use consensus_go.Creator.State.{
  CreatorConfig, Creator, is_older, new_for_epoch, on_max_after, max_after, place_candidate,
  reset_epoch,
}

module _ {U : Type 0} ⦃i : UnitInterface U⦄ where
  -- How many parents are on the rung `r`.
  abbrev pub count_at : ℕ → List (Option U) → ℕ
  count_at r [] = 0
  count_at r (p ∷ ps) = (if rung p == r then 1 else 0) + count_at r ps

  abbrev pub AreUpTo : ℕ → List (Option U) → Type 0
  AreUpTo r ps = All (λ p. rung p ≤ r) ps

  pub count_at-set :
      (r k : ℕ) (ps : List (Option U)) (v : Option U)
      → k < length ps
      → count_at r (set ps k v) + (if rung (slot ps k) == r then 1 else 0)
        ≡ count_at r ps + (if rung v == r then 1 else 0)
  count_at-set r k [] v h = absurd (omega arith)
  count_at-set r zero (p ∷ ps) v h = omega arith
  count_at-set r (suc k) (p ∷ ps) v h = omega (arith, count_at-set r k ps v (omega arith))

  count_at-length : (r : ℕ) (ps : List (Option U)) → count_at r ps ≤ length ps
  count_at-length r [] = omega arith
  count_at-length r (p ∷ ps) = ground (arith, count_at-length r ps)

  count_at-past : (r m : ℕ) (ps : List (Option U)) → r < m → AreUpTo r ps → count_at m ps ≡ 0
  count_at-past r m [] h v = refl
  count_at-past r m (p ∷ ps) h (low, v) = ground (arith, count_at-past r m ps h v)

  AreUpTo-mono : (r m : ℕ) (ps : List (Option U)) → r ≤ m → AreUpTo r ps → AreUpTo m ps
  AreUpTo-mono r m [] h v = tt
  AreUpTo-mono r m (p ∷ ps) h (low, v) = (omega arith, AreUpTo-mono r m ps h v)

  pub AreUpTo-set :
      (r k : ℕ) (ps : List (Option U)) (v : Option U)
      → rung v ≤ r
      → AreUpTo r ps
      → AreUpTo r (set ps k v)
  AreUpTo-set r k [] v h w = tt
  AreUpTo-set r zero (p ∷ ps) v h (_, w) = (h, w)
  AreUpTo-set r (suc k) (p ∷ ps) v h (low, w) = (low, AreUpTo-set r k ps v h w)

  AreUpTo-replicate : (r n : ℕ) (p : Option U) → rung p ≤ r → AreUpTo r (replicate n p)
  AreUpTo-replicate r zero p h = tt
  AreUpTo-replicate r (suc n) p h = (h, AreUpTo-replicate r n p h)

  AreUpTo-cleared : (r : ℕ) (ps : List (Option U)) → AreUpTo r (map (λ u. none) ps)
  AreUpTo-cleared r [] = tt
  AreUpTo-cleared r (p ∷ ps) = (omega arith, AreUpTo-cleared r ps)

  AreUpTo-slot : (r k : ℕ) (ps : List (Option U)) → AreUpTo r ps → rung (slot ps k) ≤ r
  AreUpTo-slot r k [] v = omega arith
  AreUpTo-slot r zero (p ∷ ps) (low, v) = low
  AreUpTo-slot r (suc k) (p ∷ ps) (low, v) = AreUpTo-slot r k ps v

  count_at-none :
      (m : ℕ) (ps : List (Option U)) → count_at (m + 1) (none ∷ ps) ≡ count_at (m + 1) ps
  count_at-none m ps = ground arith

  -- The loop of LevelFromParents: the highest level, and how many parents are on it.
  count_level-top :
      (ps : List (Option U)) (l on : ℕ)
      → on + length ps < 2 ^ 16
      → (m : ℕ) × (count_level ps l on ≡ (m, (if m == l then on else 0) + count_at (m + 1) ps))
        × (l ≤ m)
        × AreUpTo (m + 1) ps
        × ((l < m) → 0 < count_at (m + 1) ps)
  unfolding count_level
  count_level-top [] l on h = (l, ground arith, omega arith, tt, λ e. omega arith)
  count_level-top (none ∷ ps) l on h =
      let (m, e, low, v, reached) = count_level-top ps l on (omega arith) in
      (
        m,
        rw (count_at-none m ps) e,
        low,
        (omega arith, v),
        λ up. rw (count_at-none m ps) (reached up),
      )
  count_level-top (some p ∷ ps) l on h = elim (Bool-cases (ltb l (i.level p))) [
    | inl up ↦
        let (m, e, low, v, reached) = count_level-top ps (i.level p) 1 (omega arith) in
        let off : (i.level p == l) ≡ false = ground arith in
        (
          m,
          rw (up, off) (e ∙ ap (λ c. (m, c)) (ground arith)),
          ground arith,
          (omega arith, v),
          λ higher. ground (arith, reached),
        )
    | inr stay ↦
        let next : ℕ = if i.level p == l then (on + 1) % 2 ^ 16 else on in
        let (m, e, low, v, reached) = count_level-top ps l next (ground arith) in
        (
          m,
          rw stay (e ∙ ap (λ c. (m, c)) (ground arith)),
          low,
          (ground arith, v),
          λ higher. ground (arith, reached higher),
        )
  ]

  -- A candidate that is older than `u` is on a lower rung.
  is_older-rung : (p : Option U) (u : U) → is_older p u ≡ true → rung p < i.level u + 1
  is_older-rung none u e = omega arith
  is_older-rung (some prev) u e = ground arith

  module _ {P X : Type 0} (conf : CreatorConfig) where
    -- The counters tell the highest level of the candidates, how many are on it, and the level of a unit
    -- above them.
    pub record IsCounted (s : Creator U P X) : Type 0 where
      pub up_to : AreUpTo s.max_lvl s.candidates
      pub counted : s.on_max_lvl ≡ (if s.max_lvl == 0 then 0 else count_at s.max_lvl s.candidates)
      pub reached : 0 < s.max_lvl → 0 < s.on_max_lvl
      pub level_counted :
          s.level ≡ (if leb conf.quorum s.on_max_lvl then s.max_lvl else s.max_lvl - 1)

    pub new_for_epoch-IsCounted :
        (epoch : ℕ) (unstarted : P) (world : X)
        → IsCounted (new_for_epoch conf epoch unstarted world)
    unfolding new_for_epoch
    new_for_epoch-IsCounted epoch unstarted world = record {
      up_to = AreUpTo-replicate 0 conf.n_proc none (omega arith);
      counted = refl;
      reached = λ h. absurd (omega arith);
      level_counted = ground arith;
    }

    pub reset_epoch-IsCounted : (s : Creator U P X) → IsCounted (reset_epoch s)
    unfolding reset_epoch
    reset_epoch-IsCounted s = record {
      up_to = AreUpTo-cleared 0 s.candidates;
      counted = refl;
      reached = λ h. absurd (omega arith);
      level_counted = ground arith;
    }

    pub place_candidate-IsCounted :
        (u : U) (s : Creator U P X)
        → creator u < length s.candidates
        → length s.candidates < 2 ^ 16
        → is_older (slot s.candidates (creator u)) u ≡ true
        → IsCounted s
        → IsCounted (place_candidate conf u s)
    place_candidate-IsCounted u s inside small older v = record {
      up_to =
          AreUpTo-set (max_after (i.level u) s) (creator u) s.candidates (some u) (ground arith)
            (AreUpTo-mono s.max_lvl (max_after (i.level u) s) s.candidates (ground arith) v.up_to);
      counted = ground (arith, after.0);
      reached = λ h. after.1;
      level_counted = refl;
    }
      where
        low : rung (slot s.candidates (creator u)) < i.level u + 1
        low = is_older-rung (slot s.candidates (creator u)) u older

        placed :
            (r : ℕ)
            → count_at r (set s.candidates (creator u) (some u))
                + (if rung (slot s.candidates (creator u)) == r then 1 else 0)
              ≡ count_at r s.candidates + (if i.level u + 1 == r then 1 else 0)
        placed r = count_at-set r (creator u) s.candidates (some u) inside

        bound : (r : ℕ) → count_at r (set s.candidates (creator u) (some u)) < 2 ^ 16
        bound r = omega (
          arith,
          count_at-length r (set s.candidates (creator u) (some u)),
          length-set s.candidates (creator u) (some u),
        )

        after :
            (on_max_after (i.level u) s
              ≡ count_at (max_after (i.level u) s) (set s.candidates (creator u) (some u)))
            × (0 < on_max_after (i.level u) s)
        after = elim (Bool-cases (ltb s.max_lvl (i.level u + 1))) [
          | inl up ↦ rw up (
            let past =
                  count_at-past s.max_lvl (i.level u + 1) s.candidates (ground arith) v.up_to in
                let one = placed (i.level u + 1) in ground (arith, past, one),
            omega arith,
          )
          | inr stay ↦
              let one = placed s.max_lvl in
              let few = bound s.max_lvl in
              rw stay (
                ground (arith, one, few, v.counted),
                ground (arith, one, few, v.counted, v.reached (ground arith)),
              )
        ]

    -- The level that the counters give is the level that the candidates have as parents.
    pub IsCounted-level :
        (minimal_quorum : ℕ → ℕ) (s : Creator U P X)
        → length s.candidates < 2 ^ 16
        → conf.quorum ≡ minimal_quorum (length s.candidates)
        → 0 < conf.quorum
        → IsCounted s
        → s.level ≡ level_from_parents minimal_quorum s.candidates
    unfolding level_from_parents
    IsCounted-level minimal_quorum s small q some_needed v =
        let (m, e, low, up, reached) = count_level-top s.candidates 0 0 (omega arith) in
        let fits : length s.candidates % 2 ^ 16 ≡ length s.candidates = omega arith in
        let above = count_at-past s.max_lvl (m + 1) s.candidates in
        let below = count_at-past (m + 1) s.max_lvl s.candidates in
        rw (e, fits, ← q) (top m (above, below) up reached)
      where
        top :
            (m : ℕ)
            → (s.max_lvl < m + 1
                → AreUpTo s.max_lvl s.candidates
                → count_at (m + 1) s.candidates ≡ 0)
              × (m + 1 < s.max_lvl
                  → AreUpTo (m + 1) s.candidates
                  → count_at s.max_lvl s.candidates ≡ 0)
            → AreUpTo (m + 1) s.candidates
            → (0 < m → 0 < count_at (m + 1) s.candidates)
            → s.level ≡ (
                if leb conf.quorum ((if m == 0 then 0 else 0) + count_at (m + 1) s.candidates)
                then m + 1
                else m)
        top m (above, below) up reached = elim (Bool-cases (ltb s.max_lvl (m + 1))) [
          | inl low ↦
              let gone = above (ground arith) v.up_to in
              ground (arith, gone, reached, v.counted, v.level_counted)
          | inr high ↦ elim (Bool-cases (ltb (m + 1) s.max_lvl)) [
            | inl over ↦
                let gone = below (ground arith) up in
                absurd (ground (arith, gone, v.counted, v.reached (ground arith)))
            | inr under ↦
                let same : s.max_lvl ≡ m + 1 = ground arith in
                let e : count_at s.max_lvl s.candidates ≡ count_at (m + 1) s.candidates =
                  ap (λ r. count_at r s.candidates) same in
                ground (arith, e, same, v.counted, v.level_counted)
          ]
        ]
