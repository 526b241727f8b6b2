-- ===== src/Linear/Rotation.antt =====
-- pkg/linear/crp.go: the processes in the order that splitProcesses gives.
use consensus_go.Base.{
  ℕ, zero, suc, ◌+◌, ◌-◌, ◌%◌, ◌^◌, ◌≡◌, ◌<◌, ◌≤◌, refl, sym, ap, ap₂, ◌∙◌, subst, ◌∷◌, ◌++◌, map,
  Option, none, some, arith, take-append-drop, length, length-take, length-map, min,
}
use mathlib.Core.Path.{fun_ext}
use mathlib.Core.List.{Perm, perm_append_comm, map-append}
use native.Mathlib.Nat.{mod-eq_of_lt, mod-lt, mod-add-mod, add-mod-mod, add-mod_right}
use consensus_go.Linear.Crp.{range, shift_pid, split_processes}

range-append : (start a b : ℕ) → range start (a + b) ≡ range start a ++ range (start + a) b
unfolding range
range-append start zero b =
    let e : 0 + b ≡ b = omega arith in let f : start + 0 ≡ start = omega arith in rw (e, f) refl
range-append start (suc a) b =
    let e : suc a + b ≡ suc (a + b) = omega arith in
    let f : start + suc a ≡ start + 1 + a = omega arith in
    rw (e, f) (ap (◌∷◌ start) (range-append (start + 1) a b))

length-range : (start count : ℕ) → length (range start count) ≡ count
unfolding range
length-range start zero = refl
length-range start (suc count) = ap suc (length-range (start + 1) count)

-- A function that shifts a range gives a range.
map-range :
    (f : ℕ → ℕ) (start target count : ℕ)
    → ((j : ℕ) → j < count → f (start + j) ≡ target + j)
    → map f (range start count) ≡ range target count
unfolding range
map-range f start target zero h = refl
map-range f start target (suc count) h =
    let from_start : start + 0 ≡ start = omega arith in
    let here : f start ≡ target = ap f (sym from_start) ∙ h 0 (omega arith) ∙ omega arith in
    ap₂ ◌∷◌ here (
      map-range f (start + 1) (target + 1) count λ j l.
        let e : start + 1 + j ≡ start + suc j = omega arith in
        ap f e ∙ h (suc j) (omega arith) ∙ omega arith)

-- A range of residues that is turned by `k` is the range from `k` on, and then the one before it.
turned_range :
    (n k : ℕ) (f : ℕ → ℕ)
    → k ≤ n
    → ((j : ℕ) → j < n - k → f j ≡ k + j)
    → ((j : ℕ) → j < k → f (n - k + j) ≡ j)
    → Perm (map f (range 0 n)) (range 0 n)
turned_range n k f h low high =
    let split : n ≡ n - k + k = omega arith in
    let split' : n ≡ k + (n - k) = omega arith in
    let first : map f (range 0 (n - k)) ≡ range k (n - k) =
      map-range f 0 k (n - k) (λ j l. let e : 0 + j ≡ j = omega arith in ap f e ∙ low j l) in
    let second : map f (range (0 + (n - k)) k) ≡ range 0 k = map-range f (0 + (n - k)) 0 k (λ j l.
      let e : 0 + (n - k) + j ≡ n - k + j = omega arith in ap f e ∙ high j l ∙ omega arith) in
    let turned : map f (range 0 n) ≡ range k (n - k) ++ range 0 k =
      ap (λ m. map f (range 0 m)) split
      ∙ ap (map f) (range-append 0 (n - k) k)
      ∙ map-append f (range 0 (n - k)) (range (0 + (n - k)) k)
      ∙ ap₂ ◌++◌ first second in
    let whole : range 0 n ≡ range 0 k ++ range k (n - k) =
      ap (range 0) split'
      ∙ range-append 0 k (n - k)
      ∙ ap (λ m. range 0 k ++ range m (n - k)) (omega arith) in
    subst (λ l. Perm l (range 0 n)) (sym turned)
      (subst (λ l. Perm (range k (n - k) ++ range 0 k) l) (sym whole)
        (perm_append_comm (range k (n - k)) (range 0 k)))

rotation-perm : (n k : ℕ) → k < n → Perm (map (λ p. (p + k) % n) (range 0 n)) (range 0 n)
rotation-perm n k h =
    turned_range n k (λ p. (p + k) % n) (omega arith)
      (λ j l. mod-eq_of_lt (omega arith) ∙ omega arith)
      (λ j l.
        let e : n - k + j + k ≡ j + n = omega arith in
        ap (λ m. m % n) e ∙ add-mod_right j n ∙ mod-eq_of_lt (omega arith))

-- The creator of the previous timing unit is a process.
abbrev pub IsProcess : ℕ → Option ℕ → Type 0
IsProcess n none = Unit
IsProcess n (some c) = c < n

abbrev turn_of : ℕ → ℕ → Option ℕ → ℕ
turn_of n level none = level % n
turn_of n level (some c) = (level + c) % n

shift_pid-turn :
    (n level : ℕ) (tu : Option ℕ) (p : ℕ)
    → 0 < n
    → n ≤ 2 ^ 15
    → IsProcess n tu
    → shift_pid n level tu p ≡ (p + turn_of n level tu) % n
shift_pid-turn n level none p pos small proc = sym (add-mod-mod p level n)
shift_pid-turn n level (some c) p pos small proc =
    let within : (p + level) % n < n = mod-lt (p + level) pos in
    let fits : ((p + level) % n + c) % 2 ^ 16 ≡ (p + level) % n + c = omega arith in
    let regroup : p + level + c ≡ p + (level + c) = omega arith in
    ap (λ m. m % n) fits
    ∙ mod-add-mod (p + level) n c
    ∙ ap (λ m. m % n) regroup
    ∙ sym (add-mod-mod p (level + c) n)

turn_of-lt : (n level : ℕ) (tu : Option ℕ) → 0 < n → turn_of n level tu < n
turn_of-lt n level none pos = mod-lt level pos
turn_of-lt n level (some c) pos = mod-lt (level + c) pos

-- For a committee of 1 to 2^15 processes, the processes that a level is tried in, the fixed prefix first
-- and the random suffix behind it, are all the processes, each of them once, and the prefix has the
-- length asked for, or all of them.
pub split_processes-perm :
    (n prefix_len level : ℕ) (tu : Option ℕ)
    → 0 < n
    → n ≤ 2 ^ 15
    → IsProcess n tu
    → Perm
        ((split_processes n prefix_len level tu).0 ++ (split_processes n prefix_len level tu).1)
        (range 0 n)
      × (length (split_processes n prefix_len level tu).0 ≡ min prefix_len n)
unfolding split_processes
split_processes-perm n prefix_len level tu positive small proc = (
  rw
      (
        take-append-drop _ (map (shift_pid n level tu) (range 0 n)),
        fun_ext (λ p. shift_pid-turn n level tu p positive small proc),
      )
      (rotation-perm n (turn_of n level tu) (turn_of-lt n level tu positive)),
  rw
      (
        length-take _ (map (shift_pid n level tu) (range 0 n)),
        length-map (range 0 n) (shift_pid n level tu),
        length-range 0 n,
      )
      (ground arith),
)
