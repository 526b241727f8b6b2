-- ===== src/Dag/Fibers.antt =====
-- pkg/dag/fiber_map.go: slotted units by height or by level.
pub mod Growth
use consensus_go.Base.{
  ℕ, zero, suc, ◌+◌, ◌-◌, ◌≡◌, ◌≢◌, ◌<◌, ◌≤◌, refl, ap, Bool, true, false, ◌&&◌, List, [], ◌∷◌,
  ◌++◌, Option, none, some, arith, ltb, leb, ◌==◌, if◌then◌else◌, length, is_empty, ◌⊎◌, inl, inr,
  Option-cases, Bool-cases,
}
use consensus_go.Base.Int.{ℤ, pos, negsuc, ltb_ℤ, eq_ℤ, inc}
use consensus_go.Base.Outcome.{Outcome, ok, err, panic, ◌>>=◌}
use consensus_go.Dag.Slots.{
  Slotted, new_slotted, get, put, get-put, get-new_slotted, length-new_slotted, length-put,
}

-- The Go map from values to slotted units is an association list.
pub record FiberMap (U : Type 0) : Type 0 where
  pub content : List (ℕ × Slotted U)
  pub width : ℕ
  pub len : ℕ

unfoldable pub min_height : ℤ → List ℤ → ℤ
min_height low [] = low
min_height low (h ∷ hs) = min_height (if ltb_ℤ h low then h else low) hs

module _ {U : Type 0} where
  unfoldable pub find : List (ℕ × Slotted U) → ℕ → Option (Slotted U)
  find [] v = none
  find ((k, su) ∷ rest) v = let later = find rest v in if k == v then some su else later

  unfoldable pub store : List (ℕ × Slotted U) → ℕ → Slotted U → List (ℕ × Slotted U)
  store [] v su = (v, su) ∷ []
  store ((k, old) ∷ rest) v su =
      let later = store rest v su in if k == v then (v, su) ∷ rest else (k, old) ∷ later

  -- The loops of newFiberMap and extendBy: `count` empty fibers from the value `v` on.
  unfoldable pub store_new : ℕ → ℕ → ℕ → List (ℕ × Slotted U) → List (ℕ × Slotted U)
  store_new width v zero content = content
  store_new width v (suc count) content =
      store_new width (v + 1) count (store content v (new_slotted width))

  unfoldable pub new_fiber_map : ℕ → ℕ → FiberMap U
  new_fiber_map width initial_len = record {
    content = store_new width 0 initial_len [];
    width = width;
    len = initial_len;
  }

  unfoldable pub get_fiber : FiberMap U → ℕ → Option (Slotted U)
  get_fiber fm v = find fm.content v

  unfoldable pub extend_by : FiberMap U → ℕ → FiberMap U
  extend_by fm count = record fm {
    content = store_new fm.width fm.len count fm.content;
    len = fm.len + count;
  }

  -- A height that is negative is no key of the map.
  abbrev pub find_height : List (ℕ × Slotted U) → ℤ → Option (Slotted U)
  find_height content (pos n) = find content n
  find_height content (negsuc n) = none

  abbrev pub units_in : Option (Slotted U) → ℕ → List U
  units_in none pid = []
  units_in (some su) pid = get su pid

  -- The loop of get over the heights, from the process `pid` on.
  unfoldable pub get_from : FiberMap U → ℕ → List ℤ → List (List U) × ℕ
  get_from fm pid [] = ([], 0)
  get_from fm pid (h ∷ hs) =
      let (units, unknown) = get_from fm (pid + 1) hs in
      let here = units_in (find_height fm.content h) pid in
      if eq_ℤ h (negsuc 0)
      then ([] ∷ units, unknown)
      else (here ∷ units, (if is_empty here then unknown + 1 else unknown))

  unfoldable pub get_units_at : {E : Type 0} → FiberMap U → List ℤ → Outcome E (List (List U) × ℕ)
  get_units_at fm heights = if length heights == fm.width then ok (get_from fm 0 heights) else panic

  -- One fiber of above: the units of the processes whose height is below `height`.
  unfoldable pub above_in : Slotted U → ℕ → ℕ → List ℤ → List U
  above_in su height pid [] = []
  above_in su height pid (h ∷ hs) =
      let rest = above_in su height (pid + 1) hs in
      if ltb_ℤ h (pos height) then get su pid ++ rest else rest

  unfoldable pub above_from : {E : Type 0} → FiberMap U → List ℤ → ℕ → ℕ → Outcome E (List U)
  above_from fm heights height zero = ok []
  above_from fm heights height (suc count) = elim (find fm.content height) [
    | none ↦ panic
    | some su ↦ above_from fm heights (height + 1) count >>= λ rest.
        ok (above_in su height 0 heights ++ rest)
  ]

  -- A negative start reads a fiber that is not there, and calls a method of nil.
  unfoldable pub above_low : {E : Type 0} → FiberMap U → List ℤ → ℤ → Outcome E (List U)
  above_low fm heights (pos low) = above_from fm heights low (fm.len - low)
  above_low fm heights (negsuc low) = panic

  unfoldable pub above_heights : {E : Type 0} → FiberMap U → List ℤ → Outcome E (List U)
  above_heights fm [] = panic
  above_heights fm (h ∷ hs) =
      if length (h ∷ hs) == fm.width then above_low fm (h ∷ hs) (inc (min_height h hs)) else panic

  -- Every value below the length has a fiber of full width, and no other value has one.
  pub record IsFiberMap (fm : FiberMap U) : Type 0 where
    pub present :
        (v : ℕ)
        → v < fm.len
        → (su : Slotted U) × (find fm.content v ≡ some su) × (length su ≡ fm.width)
    pub missing : (v : ℕ) → fm.len ≤ v → find fm.content v ≡ none

  -- The units at a value and a process.
  unfoldable pub units_at : FiberMap U → ℕ → ℕ → List U
  units_at fm v pid = units_in (find fm.content v) pid

  pub find-store :
      (content : List (ℕ × Slotted U)) (v : ℕ) (su : Slotted U) (w : ℕ)
      → find (store content v su) w ≡ (if v == w then some su else find content w)
  unfolding find store
  find-store [] v su w = refl
  find-store ((k, old) ∷ rest) v su w = ground (arith, find-store rest v su w)

  pub find-store_new :
      (width v count : ℕ) (content : List (ℕ × Slotted U)) (w : ℕ)
      → find (store_new width v count content) w
        ≡ (if leb v w && ltb w (v + count) then some (new_slotted width) else find content w)
  unfolding store_new
  find-store_new width v zero content w = ground arith
  find-store_new width v (suc count) content w = ground (
    arith,
    find-store_new width (v + 1) count (store content v (new_slotted width)) w,
    find-store content v (new_slotted width) w,
  )
