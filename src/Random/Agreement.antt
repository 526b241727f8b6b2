-- ===== src/Random/Agreement.antt =====
-- pkg/random/coin/coin.go: what one process includes in its units passes the check of every other.
use consensus_go.Base.{
  ℕ, zero, suc, ◌-◌, ◌≡◌, refl, sym, ap, ◌∙◌, subst, ◌⊎◌, inl, inr, true, false, List, [], ◌∷◌,
  ◌++◌, Option, none, some, arith, ltb, ◌==◌, if◌then◌else◌, length, take, drop, get_elem?,
  replicate, take-length-append, drop-length-append, length-append, append-nil,
}
use consensus_go.Base.Outcome.{Outcome, ok, err, panic, ◌>>=◌, Post, post_bind, post_ok, Returns}
use consensus_go.Gomel.Hash.{hash_eq_iff, hash_eq_refl}
use consensus_go.Gomel.Preunit.{dealing}
use consensus_go.Gomel.Unit.{UnitInterface, creator, epoch_id, hash}
use consensus_go.Dag.Bag.{add}
use consensus_go.Dag.Store.{Store}
use consensus_go.Random.Coin.{
  WeakThresholdKey, CoinError, Coin, nonce, append_or_ignore, bytes, check_bytes, update,
  check_compliance, combine_shares, bytes_or_combined, data_to_include, coin_or_error,
  check_later_share, coin_not_verified, data_too_short, verified_or_error, add_share, add_bytes,
}

-- What is relied on of the signatures: the wire forms can be read back, each in one way, and have a fixed length, and all that
-- are verified for one message have one wire form.
pub record IsThresholdKey {S G : Type 0} (key : WeakThresholdKey S G) : Type 0 where
  pub reads_share : (s : S) → (key.parse_share (key.marshal_share s)).1 ≡ true
  pub reads_signature : (g : G) → key.unmarshal_signature (key.marshal_signature g) ≡ some g
  pub canonical :
      (bs : List ℕ) (g : G) → key.unmarshal_signature bs ≡ some g → bs ≡ key.marshal_signature g
  pub signature_size : (g : G) → length (key.marshal_signature g) ≡ key.signature_length
  pub unique :
      (g h : G) (msg : List ℕ)
      → key.verify_signature g msg ≡ true
      → key.verify_signature h msg ≡ true
      → key.marshal_signature g ≡ key.marshal_signature h

get_elem?-append_one :
    (xs : List (List ℕ)) (y : List ℕ) (j : ℕ) (x : List ℕ)
    → get_elem? (xs ++ (y ∷ [])) j ≡ some x
    → (get_elem? xs j ≡ some x) ⊎ ((j ≡ length xs) × (x ≡ y))
get_elem?-append_one [] y zero x h = inr (refl, cc)
get_elem?-append_one [] y (suc j) x h = inl h
get_elem?-append_one (z ∷ xs) y zero x h = inl h
get_elem?-append_one (z ∷ xs) y (suc j) x h = elim (get_elem?-append_one xs y j x h) [
  | inl a ↦ inl a
  | inr b ↦ inr (ap suc b.0, b.1)
]

module _ {S G : Type 0} (key : WeakThresholdKey S G) (law : IsThresholdKey key) where
  -- `bs` is the wire form of a signature that is verified for a level of an epoch.
  abbrev pub AreRandom : ℕ → ℕ → List ℕ → Type 0
  AreRandom epoch l bs =
      (g : G) × (bs ≡ key.marshal_signature g) × (key.verify_signature g (nonce l epoch) ≡ true)

  -- All known bytes are random bytes of their level.
  abbrev pub IsCoin : ℕ → Coin S → Type 0
  IsCoin epoch s =
      (l : ℕ) (bs : List ℕ) → get_elem? s.random_bytes l ≡ some bs → AreRandom epoch l bs

  append_or_ignore-IsCoin :
      (epoch : ℕ) (s : Coin S) (l : ℕ) (bs : List ℕ)
      → IsCoin epoch s
      → AreRandom epoch l bs
      → IsCoin epoch (record s { random_bytes = append_or_ignore s.random_bytes l bs })
  unfolding append_or_ignore
  append_or_ignore-IsCoin epoch s l bs wf new j cs h =
      elim (length s.random_bytes == l)
          as (λ b.
            get_elem? (if b then s.random_bytes ++ (bs ∷ []) else s.random_bytes) j ≡ some cs
            → (length s.random_bytes == l) ≡ b
            → AreRandom epoch j cs) [
              | false ↦ λ k e. wf j cs k
              | true ↦ λ k e. elim (get_elem?-append_one s.random_bytes bs j cs k) [
                | inl a ↦ wf j cs a
                | inr b ↦
                    subst (λ k. AreRandom epoch k cs) (ground (arith, b.0, e))
                      (subst (AreRandom epoch l) (sym b.1) new)
              ]
            ]
        h refl

  check_bytes-random :
      (epoch : ℕ) (s : Coin S) (l : ℕ) (bs : List ℕ)
      → IsCoin epoch s
      → AreRandom epoch l bs
      → check_bytes key (get_elem? s.random_bytes l) bs l epoch ≡ ok tt
  unfolding check_bytes
  check_bytes-random epoch s l bs wf (g, e, v) =
      elim (get_elem? s.random_bytes l)
          as (λ o. get_elem? s.random_bytes l ≡ o → check_bytes key o bs l epoch ≡ ok tt) [
            | none ↦ λ _. rw (e, law.reads_signature g, v)
            | some known ↦ λ k.
                let (h, f, w) = wf l known k in
                let same : known ≡ bs = f ∙ law.unique h g (nonce l epoch) w v ∙ sym e in
                rw (same, hash_eq_refl bs)
          ]
        refl

  -- What the check accepts in place of a signature is one.
  check_bytes-read :
      (epoch : ℕ) (s : Coin S) (l : ℕ) (bs : List ℕ)
      → IsCoin epoch s
      → check_bytes key (get_elem? s.random_bytes l) bs l epoch ≡ ok tt
      → AreRandom epoch l bs
  unfolding check_bytes
  check_bytes-read epoch s l bs wf =
      elim (get_elem? s.random_bytes l)
          as (λ o.
            get_elem? s.random_bytes l ≡ o
            → check_bytes key o bs l epoch ≡ ok tt
            → AreRandom epoch l bs) [
              | none ↦ λ _.
                  elim (key.unmarshal_signature bs)
                      as (λ o.
                        key.unmarshal_signature bs ≡ o
                        → verified_or_error key o l epoch ≡ ok tt
                        → AreRandom epoch l bs) [
                          | none ↦ λ _ p. absurd (ground (arith, p))
                          | some g ↦ λ r p. (g, law.canonical bs g r, ground (arith, p))
                        ]
                    refl
              | some known ↦ λ k p.
                  subst (AreRandom epoch l) ((hash_eq_iff known bs).0 (ground (arith, p)))
                    (wf l known k)
            ]
        refl

  AreRandom-length :
      (epoch l : ℕ) (bs : List ℕ) → AreRandom epoch l bs → length bs ≡ key.signature_length
  AreRandom-length epoch l bs (g, e, v) = ground (arith, e, law.signature_size g)

  module _ {U : Type 0} ⦃i : UnitInterface U⦄ (rs : U → Option (List ℕ)) where
    check_later_share-ok :
        (t : Coin S) (u : U) (more : List ℕ)
        → (t.share_providers (creator u) ≡ true → (key.parse_share more).1 ≡ true)
        → check_later_share key rs t u more ≡ ok tt
    check_later_share-ok t u more shared = ground (arith, shared)

    -- A unit is accepted whose data are random bytes of the level below and, if there must be, a share.
    check_compliance-random :
        (t : Coin S) (u : U) (l : ℕ) (bs more : List ℕ)
        → IsCoin (epoch_id u) t
        → AreRandom (epoch_id u) l bs
        → dealing (i.preunit u) ≡ false
        → i.level u ≡ suc l
        → rs u ≡ some (bs ++ more)
        → (t.share_providers (creator u) ≡ true → (key.parse_share more).1 ≡ true)
        → check_compliance key rs t u ≡ ok tt
    unfolding check_compliance
    check_compliance-random t u l bs more wf random live high included shared =
        let size : key.signature_length ≡ length bs =
          sym (AreRandom-length (epoch_id u) l bs random) in
        let long : ltb (length (bs ++ more)) key.signature_length ≡ false =
          ground (arith, length-append bs more, size) in
        let front : take key.signature_length (bs ++ more) ≡ bs =
          rw (size, take-length-append bs more) in
        let back : drop key.signature_length (bs ++ more) ≡ more =
          rw (size, drop-length-append bs more) in
        let below : suc l - 1 ≡ l = omega arith in
        let positive : (suc l == 0) ≡ false = ground arith in
        rw (
          live,
          included,
          long,
          high,
          front,
          back,
          below,
          positive,
          check_bytes-random (epoch_id u) t l bs wf random,
          check_later_share-ok t u more shared,
        )

    coin_or_error-random :
        (o : Option G) (epoch l : ℕ) → Post (coin_or_error key rs o l epoch) (AreRandom epoch l)
    coin_or_error-random none epoch l = tt
    coin_or_error-random (some g) epoch l =
        elim (key.verify_signature g (nonce l epoch))
            as (λ b.
              (key.verify_signature g (nonce l epoch) ≡ b)
              → Post (if b then ok (key.marshal_signature g) else err coin_not_verified)
                  (AreRandom epoch l)) [ false ↦ λ _. tt | true ↦ λ v. (g, refl, v) ]
          refl

    bytes_or_combined-random :
        (s : Coin S) (d : Store U) (l : ℕ) (o : Option (List ℕ))
        → get_elem? s.random_bytes l ≡ o
        → IsCoin d.epoch s
        → Post
            (bytes_or_combined key rs s d l o)
            (λ r. AreRandom d.epoch l r.0 × IsCoin d.epoch r.1)
    unfolding bytes_or_combined combine_shares
    bytes_or_combined-random s d l (some known) k wf =
        let (g, e, v) = wf l known k in
        let size = AreRandom-length d.epoch l known (wf l known k) in
        let whole : take key.signature_length (known ++ replicate key.signature_length 0) ≡ known =
          rw (sym size, take-length-append known (replicate (length known) 0)) in
        ((g, whole ∙ e, v), wf)
    bytes_or_combined-random s d l none k wf =
        post_bind (combine_shares key rs s d l)
          (λ rb. ok (rb, record s { random_bytes = append_or_ignore s.random_bytes l rb }))
          (AreRandom d.epoch l) (λ r. AreRandom d.epoch l r.0 × IsCoin d.epoch r.1)
          (coin_or_error-random _ d.epoch l)
          (λ rb new. (new, append_or_ignore-IsCoin d.epoch s l rb wf new))

    -- The share that goes with the random bytes, if any.
    abbrev share_bytes : Coin S → ℕ → ℕ → List ℕ
    share_bytes s l epoch =
        if s.share_providers s.pid then key.marshal_share (key.create_share (nonce l epoch)) else []

    data_to_include-random :
        (s : Coin S) (d : Store U) (l : ℕ)
        → IsCoin d.epoch s
        → Post (data_to_include key rs s d (suc l)) (λ r.
          IsCoin d.epoch r.1
          × ((bs : List ℕ) × AreRandom d.epoch l bs × (r.0 ≡ bs ++ share_bytes s (suc l) d.epoch)))
    unfolding data_to_include
    data_to_include-random s d l wf =
        post_bind (bytes_or_combined key rs s d l (get_elem? s.random_bytes l)) _
          (λ r. AreRandom d.epoch l r.0 × IsCoin d.epoch r.1) _
          (bytes_or_combined-random s d l (get_elem? s.random_bytes l) refl wf)
          (λ r q. (q.1, (r.0, q.0, ground (arith, append-nil r.0))))

    share_bytes-read :
        (s : Coin S) (l epoch : ℕ)
        → s.share_providers s.pid ≡ true
        → (key.parse_share (share_bytes s l epoch)).1 ≡ true
    share_bytes-read s l epoch h = rw (h, law.reads_share (key.create_share (nonce l epoch)))

    -- Data that DataToInclude gives a process for a level above 0 make its unit pass the check of any process, its own
    -- or another. The unit has that level, is of the dag's epoch and not dealing; both processes know only random
    -- bytes of that epoch, and agree on whether the creator provides shares.
    pub data_to_include-accepted :
        (s : Coin S) (d : Store U) (l : ℕ) (included : List ℕ) (s' t : Coin S) (u : U)
        → IsCoin d.epoch s
        → data_to_include key rs s d (suc l) ≡ ok (included, s')
        → IsCoin d.epoch t
        → t.share_providers s.pid ≡ s.share_providers s.pid
        → creator u ≡ s.pid
        → epoch_id u ≡ d.epoch
        → dealing (i.preunit u) ≡ false
        → i.level u ≡ suc l
        → rs u ≡ some included
        → check_compliance key rs t u ≡ ok tt
    data_to_include-accepted s d l included s' t u wf run wf' providers own epoch live high has =
        let (_, (bs, random, shape)) =
          post_ok (data_to_include key rs s d (suc l)) _ (included, s')
            (data_to_include-random s d l wf) run in
        check_compliance-random t u l bs (share_bytes s (suc l) d.epoch)
          (subst (λ e. IsCoin e t) (sym epoch) wf')
          (subst (λ e. AreRandom e l bs) (sym epoch) random) live high (has ∙ ap some shape)
          (λ h.
            share_bytes-read s (suc l) d.epoch (sym providers ∙ ap t.share_providers (sym own) ∙ h))

    first_passed :
        (m : Outcome CoinError Unit) (f : Unit → Outcome CoinError Unit)
        → m >>= f ≡ ok tt
        → m ≡ ok tt
    first_passed panic f h = absurd (ground (arith, h))
    first_passed (err e) f h = absurd (ground (arith, h))
    first_passed (ok a) f h = refl

    check_compliance-live :
        (s : Coin S) (u : U)
        → check_compliance key rs s u ≡ ok tt
        → dealing (i.preunit u) ≡ false
        → (ltb (length (bytes (rs u))) key.signature_length ≡ false)
          × ((i.level u == 0) ≡ false)
          × (check_bytes key
                (get_elem? s.random_bytes (i.level u - 1))
                (take key.signature_length (bytes (rs u)))
                (i.level u - 1)
                (epoch_id u)
              ≡ ok tt)
    unfolding check_compliance
    check_compliance-live s u passed live =
        let first =
          check_bytes key (get_elem? s.random_bytes (i.level u - 1))
            (take key.signature_length (bytes (rs u))) (i.level u - 1) (epoch_id u) in
        let rest =
          first
          >>= (λ _. check_later_share key rs s u (drop key.signature_length (bytes (rs u)))) in
        elim (ltb (length (bytes (rs u))) key.signature_length)
            as (λ b.
              (if b then err data_too_short else if i.level u == 0 then panic else rest) ≡ ok tt
              → (b ≡ false) × ((i.level u == 0) ≡ false) × (first ≡ ok tt)) [
                | false ↦ λ p.
                    elim (i.level u == 0)
                        as (λ b.
                          (if b then panic else rest) ≡ ok tt
                          → (false ≡ false) × (b ≡ false) × (first ≡ ok tt)) [
                            | false ↦ λ q. (refl, refl, first_passed first _ q)
                            | true ↦ λ q. absurd (ground (arith, q))
                          ]
                      p
                | true ↦ λ p. absurd (ground (arith, p))
              ]
          (rw (live) at passed)

    add_share-IsCoin :
        (epoch : ℕ) (s : Coin S) (u : U) (bs : List ℕ)
        → IsCoin epoch s
        → IsCoin epoch (add_share key rs s u bs)
    add_share-IsCoin epoch s u bs wf =
        elim (s.share_providers (creator u))
          as (λ b. IsCoin epoch (
            if b
            then record s { coin_shares = add s.coin_shares (hash u) (key.parse_share bs).0 }
            else s)) [ true ↦ wf | false ↦ wf ]

    -- If a process knows only random bytes of the epoch of a unit that passed its check, then update does not panic on
    -- the unit, and after it the process again knows only random bytes.
    pub update-IsCoin :
        (s : Coin S) (u : U)
        → IsCoin (epoch_id u) s
        → check_compliance key rs s u ≡ ok tt
        → Returns (update key rs s u) (IsCoin (epoch_id u))
    unfolding update
    update-IsCoin s u wf passed =
        let n = key.signature_length in
        let bs = bytes (rs u) in
        elim (dealing (i.preunit u))
            as (λ b.
              dealing (i.preunit u) ≡ b
              → Returns {E = CoinError}
                  (if b
                    then ok (add_share key rs s u bs)
                    else if ltb (length bs) n
                    then panic
                    else if i.level u == 0
                    then ok (add_share key rs s u (drop n bs))
                    else ok (
                        add_bytes key rs (add_share key rs s u (drop n bs)) (i.level u - 1)
                          (take n bs)))
                  (IsCoin (epoch_id u))) [
                    | true ↦ λ _. add_share-IsCoin (epoch_id u) s u bs wf
                    | false ↦ λ live.
                        let (long, positive, first) = check_compliance-live s u passed live in
                        rw (long, positive)
                          (append_or_ignore-IsCoin (epoch_id u) (add_share key rs s u (drop n bs))
                            (i.level u - 1) (take n bs)
                            (add_share-IsCoin (epoch_id u) s u (drop n bs) wf)
                            (check_bytes-read (epoch_id u) s (i.level u - 1) (take n bs) wf first))
                  ]
          refl
