-- ===== src/Base/Outcome.antt =====
-- What a Go function with an error result does: it returns a value, returns an error, or panics.
use consensus_go.Base.Tests.{if◌then◌else◌}
use mathlib.Core.Bool.{Bool, true, false}
use mathlib.Core.Path.{◌≡◌, refl}

pub data Outcome (E A : Type 0) : Type 0 where
  panic : Outcome E A
  err : E → Outcome E A
  ok : A → Outcome E A

-- A panic and an error end the computation.
infixl 5 ◌>>=◌
abbrev pub ◌>>=◌ : {E A B : Type 0} → Outcome E A → (A → Outcome E B) → Outcome E B
panic >>= next = panic
err problem >>= next = err problem
ok value >>= next = next value

-- A statement about the value of an outcome, if there is one.
abbrev pub Post : {E A : Type 0} → Outcome E A → (A → Type 0) → Type 0
Post (ok a) P = P a
Post (err e) P = Unit
Post panic P = Unit

pub post_bind :
    {E A B : Type 0} (m : Outcome E A) (f : A → Outcome E B) (Q : A → Type 0) (P : B → Type 0)
    → Post m Q
    → ((a : A) → Q a → Post (f a) P)
    → Post (m >>= f) P
post_bind (ok a) f Q P q k = k a q
post_bind (err e) f Q P q k = tt
post_bind panic f Q P q k = tt

pub post_ok : {E A : Type 0} (m : Outcome E A) (P : A → Type 0) (a : A) → Post m P → m ≡ ok a → P a
post_ok m P a p e = rw e at p

pub post_weaken :
    {E A : Type 0} (m : Outcome E A) (P Q : A → Type 0)
    → Post m P
    → ((a : A) → P a → Q a)
    → Post m Q
post_weaken (ok a) P Q p k = k a p
post_weaken (err e) P Q p k = tt
post_weaken panic P Q p k = tt

-- An outcome is a value, of which `P` holds.
abbrev pub Returns : {E A : Type 0} → Outcome E A → (A → Type 0) → Type 0
Returns (ok a) P = P a
Returns (err e) P = ⊥
Returns panic P = ⊥

pub returns_bind :
    {E A B : Type 0} (m : Outcome E A) (f : A → Outcome E B) (Q : A → Type 0) (P : B → Type 0)
    → Returns m Q
    → ((a : A) → Q a → Returns (f a) P)
    → Returns (m >>= f) P
returns_bind (ok a) f Q P q k = k a q
returns_bind (err e) f Q P q k = absurd q
returns_bind panic f Q P q k = absurd q

pub returns_ok :
    {E A : Type 0} (m : Outcome E A) (P : A → Type 0) → Returns m P → (a : A) × (m ≡ ok a) × P a
returns_ok (ok a) P p = (a, refl, p)
returns_ok (err e) P p = absurd p
returns_ok panic P p = absurd p

pub post_if :
    {E A : Type 0} (b : Bool) (m n : Outcome E A) (P : A → Type 0)
    → Post m P
    → Post n P
    → Post (if b then m else n) P
post_if true m n P p q = p
post_if false m n P p q = q

-- An outcome is a value, of which `P` holds, or else `X` does.
abbrev pub Ends : {E A : Type 0} → Type 0 → Outcome E A → (A → Type 0) → Type 0
Ends X (ok a) P = P a
Ends X (err e) P = X
Ends X panic P = X

pub ends_bind :
    {E A B : Type 0} (X : Type 0) (m : Outcome E A) (f : A → Outcome E B) (Q : A → Type 0)
    (P : B → Type 0)
    → Ends X m Q
    → ((a : A) → Q a → Ends X (f a) P)
    → Ends X (m >>= f) P
ends_bind X (ok a) f Q P q k = k a q
ends_bind X (err e) f Q P x k = x
ends_bind X panic f Q P x k = x

pub returns_ends :
    {E A : Type 0} (X : Type 0) (m : Outcome E A) (P : A → Type 0) → Returns m P → Ends X m P
returns_ends X (ok a) P p = p
returns_ends X (err e) P p = absurd p
returns_ends X panic P p = absurd p
