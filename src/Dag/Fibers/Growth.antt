-- ===== src/Dag/Fibers/Growth.antt =====
-- pkg/dag/adding.go and fiber_map.go: growing a fiber map, and adding a unit to it.
use consensus_go.Base.{
  ℕ, ◌+◌, ◌≡◌, ◌<◌, ◌≤◌, refl, ◌∙◌, ◌&&◌, [], ◌∷◌, ◌++◌, Option, none, some, arith, ltb, leb, ◌==◌,
  if◌then◌else◌, length, inl, inr, Bool-cases, ltb→lt,
}
use consensus_go.Base.Outcome.{Outcome, ok, panic}
use consensus_go.Dag.Slots.{
  Slotted, new_slotted, get, put, get-put, get-new_slotted, length-new_slotted, length-put,
}
use consensus_go.Dag.Fibers.{
  FiberMap, find, store, new_fiber_map, extend_by, get_fiber, units_at, IsFiberMap, find-store,
  find-store_new,
}

module _ {U : Type 0} where
  -- updateUnitsOnHeight and updateUnitsOnLevel: extend the map if the value is not below its length,
  -- and append the unit to its creator's slot. The Go code panics on a fiber that is still missing.
  unfoldable pub grown : FiberMap U → ℕ → FiberMap U
  grown fm v = if leb fm.len v then extend_by fm 10 else fm

  unfoldable pub append_unit :
      {E : Type 0} → FiberMap U → ℕ → ℕ → U → Option (Slotted U) → Outcome E (FiberMap U)
  append_unit fm v pid u none = panic
  append_unit fm v pid u (some su) =
      ok (record fm { content = store fm.content v (put su pid (get su pid ++ (u ∷ []))) })

  unfoldable pub add_unit : {E : Type 0} → FiberMap U → ℕ → ℕ → U → Outcome E (FiberMap U)
  add_unit fm v pid u = append_unit (grown fm v) v pid u (get_fiber (grown fm v) v)

  find-extend_by :
      (fm : FiberMap U) (count w : ℕ)
      → find (extend_by fm count).content w ≡ (
          if leb fm.len w && ltb w (fm.len + count)
          then some (new_slotted fm.width)
          else find fm.content w)
  unfolding extend_by
  find-extend_by fm count w = find-store_new fm.width fm.len count fm.content w

  extend_by-present :
      (fm : FiberMap U) (count : ℕ)
      → IsFiberMap fm
      → (w : ℕ) → w < fm.len + count
      → (su : Slotted U) × (find (extend_by fm count).content w ≡ some su) × (length su ≡ fm.width)
  extend_by-present fm count v w h = elim (Bool-cases (ltb w fm.len)) [
    | inl old ↦
        let (su, e, l) = v.present w (ltb→lt w fm.len old) in
        (su, ground (arith, find-extend_by fm count w, e), l)
    | inr new ↦ (
      new_slotted fm.width,
      ground (arith, find-extend_by fm count w),
      length-new_slotted U fm.width,
    )
  ]

  extend_by-IsFiberMap :
      (fm : FiberMap U) (count : ℕ) → IsFiberMap fm → IsFiberMap (extend_by fm count)
  unfolding extend_by
  extend_by-IsFiberMap fm count v = record {
    present = extend_by-present fm count v;
    missing = λ w h. ground (arith, find-extend_by fm count w, v.missing w);
  }

  pub new_fiber_map-IsFiberMap : (width n : ℕ) → IsFiberMap {U = U} (new_fiber_map width n)
  unfolding new_fiber_map find
  new_fiber_map-IsFiberMap width n = record {
    present = λ w h. (
      new_slotted width,
      ground (arith, find-store_new {U = U} width 0 n [] w),
      length-new_slotted U width,
    );
    missing = λ w h. ground (arith, find-store_new {U = U} width 0 n [] w);
  }

  pub units_at-new_fiber_map :
      (width n w pid : ℕ) → units_at {U = U} (new_fiber_map width n) w pid ≡ []
  unfolding new_fiber_map find units_at
  units_at-new_fiber_map width n w pid =
      ground (arith, find-store_new {U = U} width 0 n [] w, get-new_slotted {U = U} width pid)

  units_at-extend_by :
      (fm : FiberMap U) (count w pid : ℕ)
      → IsFiberMap fm
      → units_at (extend_by fm count) w pid ≡ units_at fm w pid
  unfolding units_at
  units_at-extend_by fm count w pid v =
      ground (arith, find-extend_by fm count w, v.missing w, get-new_slotted {U = U} fm.width pid)

  grown-IsFiberMap : (fm : FiberMap U) (w : ℕ) → IsFiberMap fm → IsFiberMap (grown fm w)
  unfolding grown
  grown-IsFiberMap fm w v = elim (Bool-cases (leb fm.len w)) [
    | inl more ↦ rw more (extend_by-IsFiberMap fm 10 v)
    | inr fits ↦ rw fits v
  ]

  grown_shape :
      (fm : FiberMap U) (w : ℕ)
      → ((grown fm w).width ≡ fm.width)
        × (w < fm.len + 10 → w < (grown fm w).len)
        × (fm.len ≤ (grown fm w).len)
  unfolding grown extend_by
  grown_shape fm w = ground arith

  units_at-grown :
      (fm : FiberMap U) (v w pid : ℕ)
      → IsFiberMap fm
      → units_at (grown fm v) w pid ≡ units_at fm w pid
  unfolding grown
  units_at-grown fm v w pid i = elim (Bool-cases (leb fm.len v)) [
    | inl more ↦ rw more (units_at-extend_by fm 10 w pid i)
    | inr fits ↦ rw fits refl
  ]

  -- What adding a unit at a value and a process does to a fiber map.
  pub record Adds (fm : FiberMap U) (v pid : ℕ) (u : U) (fm' : FiberMap U) : Type 0 where
    pub shape : IsFiberMap fm'
    pub same_width : fm'.width ≡ fm.width
    pub covers : v < fm'.len
    pub no_shorter : fm.len ≤ fm'.len
    pub shows :
        (w q : ℕ)
        → units_at fm' w q
          ≡ (if v == w && pid == q then units_at fm v pid ++ (u ∷ []) else units_at fm w q)

  stored-Adds :
      (fm : FiberMap U) (v pid : ℕ) (u : U) (su : Slotted U)
      → IsFiberMap fm
      → v < fm.len
      → find fm.content v ≡ some su
      → length su ≡ fm.width
      → pid < fm.width
      → Adds fm v pid u
          (record fm { content = store fm.content v (put su pid (get su pid ++ (u ∷ []))) })
  unfolding units_at
  stored-Adds fm v pid u su i hv e l hp = record {
    shape = record {
      present = present';
      missing = λ w h. ground (arith, find-store fm.content v new w, i.missing w);
    };
    same_width = refl;
    covers = hv;
    no_shorter = omega arith;
    shows = λ w q.
        ground (arith, e, find-store fm.content v new w, get-put su pid (get su pid ++ (u ∷ [])) q);
  }
    where
      new : Slotted U
      new = put su pid (get su pid ++ (u ∷ []))

      present' :
          (w : ℕ)
          → w < fm.len
          → (s : Slotted U) × (find (store fm.content v new) w ≡ some s) × (length s ≡ fm.width)
      present' w h = elim (Bool-cases (v == w)) [
        | inl hit ↦ (new, ground (arith, find-store fm.content v new w), length-put su pid _ ∙ l)
        | inr miss ↦
            let (s, f, k) = i.present w h in (s, ground (arith, find-store fm.content v new w), k)
      ]

  -- Adding succeeds on a well-formed map, at most ten values past its end.
  pub add_unit-Adds :
      {E : Type 0} (fm : FiberMap U) (v pid : ℕ) (u : U)
      → IsFiberMap fm
      → v < fm.len + 10
      → pid < fm.width
      → (fm' : FiberMap U) × (add_unit {E = E} fm v pid u ≡ ok fm') × Adds fm v pid u fm'
  unfolding add_unit append_unit get_fiber
  add_unit-Adds fm v pid u i hv hp =
      let g = grown fm v in
      let (w, reach, longer) = grown_shape fm v in
      let gi : IsFiberMap g = grown-IsFiberMap fm v i in
      let (su, e, l) = gi.present v (reach hv) in
      let a = stored-Adds g v pid u su gi (reach hv) e l (rw w hp) in
      (
        record g { content = store g.content v (put su pid (get su pid ++ (u ∷ []))) },
        rw e refl,
        record {
          shape = a.shape;
          same_width = a.same_width ∙ w;
          covers = a.covers;
          no_shorter = longer;
          shows = λ x q.
              ground (arith, a.shows x q, units_at-grown fm v v pid i, units_at-grown fm v x q i);
        },
      )
