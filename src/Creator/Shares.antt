-- ===== src/Creator/Shares.antt =====
-- pkg/creator/proofs.go: what shares and proofs give when they are read back, combined and checked.
use consensus_go.Base.{
  ℕ, ◌+◌, ◌%◌, ◌^◌, ◌≡◌, ◌<◌, ◌≤◌, ◌↔◌, refl, sym, ◌∙◌, ◌⊎◌, inl, inr, true, false, ◌||◌, List, [],
  ◌∷◌, ◌++◌, map, Option, none, some, arith, ltb, leb, ◌==◌, length, is_empty, take, drop,
  length-append, length-map, length-take, take-length-append, drop-length-append, All, lt→ltb,
  ==_iff, ◌≢◌, Bool-cases, Option-cases,
}
use consensus_go.Base.Int.{pos}
use consensus_go.Base.Outcome.{Outcome, ok, err, panic}
use consensus_go.Gomel.Hash.{hash_eq, hash_eq_iff}
use consensus_go.Gomel.Id.{decode_id-id, id_bound}
use consensus_go.Gomel.Preunit.{Preunit, unit_id, put_uint, dealing, length-put_uint}
use consensus_go.Encoding.Wire.{uint-put_uint}
use consensus_go.Creator.Proofs.{
  ThresholdKey, proof_length, ProofError, encode_proof, decode_proof, proof_epoch, decode_share,
  encode_signature, decode_signature, epoch_proof, put_share, shares_of, store_shares,
  combine_if_enough, add_share, encode_built, try_building,
}

append_parts :
    (n : ℕ) (xs ys : List ℕ) → length xs ≡ n → (take n (xs ++ ys) ≡ xs) × (drop n (xs ++ ys) ≡ ys)
append_parts n xs ys e = rw (← e) (take-length-append xs ys, drop-length-append xs ys)

pub length-encode_proof :
    (u : Preunit) → length u.hash ≡ 32 → length (encode_proof u) ≡ proof_length
unfolding encode_proof
length-encode_proof u h =
    omega (arith, length-append (put_uint 8 (unit_id u)) u.hash, length-put_uint 8 (unit_id u))

-- Reading the proof made for a timing unit gives its height, creator, epoch and hash, where these are within
-- 16, 16 and 32 bits and the hash has 32 bytes.
pub decode_proof-encode_proof :
    (u : Preunit)
    → u.height < 2 ^ 16
    → u.creator < 2 ^ 16
    → u.epoch_id < 2 ^ 32
    → length u.hash ≡ 32
    → decode_proof (encode_proof u) ≡ (pos u.height, u.creator, u.epoch_id, some u.hash)
unfolding decode_proof encode_proof unit_id
decode_proof-encode_proof u hh hc he hl =
    let (a, b) = append_parts 8 (put_uint 8 (unit_id u)) u.hash (length-put_uint 8 (unit_id u)) in
    let long = length-encode_proof u hl in
    let number = uint-put_uint 8 (unit_id u) (id_bound (pos u.height) u.creator u.epoch_id) in
    unfold encode_proof in
    rw (long, a, b, number, decode_id-id u.height u.creator u.epoch_id hh hc he) refl

module _ {S G : Type 0} (key : ThresholdKey S G) where
  -- The owners are those of the shares, and no two shares have the same owner.
  abbrev pub AreDistinct : List (ℕ × S) → Type 0
  AreDistinct [] = Unit
  AreDistinct ((o, s) ∷ ss) = (key.owner s ≡ o) × All (λ p. p.0 ≢ o) ss × AreDistinct ss

  -- No two of the shares have the same owner.
  abbrev pub HaveOwners : List S → Type 0
  HaveOwners [] = Unit
  HaveOwners (s ∷ ss) = All (λ t. key.owner t ≢ key.owner s) ss × HaveOwners ss

  -- Every share that is stored under a message verifies for it, and is the only one of its owner there.
  abbrev pub IsGenuine : List ℕ → List (ℕ × S) → Type 0
  IsGenuine msg ss = All (λ p. key.verify_share p.1 msg ≡ true) ss × AreDistinct ss

  abbrev pub AreGenuine : List (List ℕ × List (ℕ × S)) → Type 0
  AreGenuine db = All (λ e. IsGenuine e.0 e.1) db

  put_share-All :
      (share : S) (o : ℕ) (ss : List (ℕ × S))
      → key.owner share ≢ o
      → All (λ p. p.0 ≢ o) ss
      → All (λ p. p.0 ≢ o) (put_share key share ss)
  put_share-All share o [] other v = (other, tt)
  put_share-All share o ((q, s) ∷ ss) other (w, v) = elim (Bool-cases (q == key.owner share)) [
    | inl own ↦ rw own (w, v)
    | inr miss ↦ rw miss (w, put_share-All share o ss other v)
  ]

  put_share-AreDistinct :
      (share : S) (ss : List (ℕ × S)) → AreDistinct ss → AreDistinct (put_share key share ss)
  put_share-AreDistinct share [] v = (refl, tt, tt)
  put_share-AreDistinct share ((o, s) ∷ ss) (e, f, v) = elim (Bool-cases (o == key.owner share)) [
    | inl own ↦ rw own (sym ((==_iff o (key.owner share)).0 own), f, v)
    | inr other ↦ rw other (
      e,
      put_share-All share o ss (λ k. ground (arith, k, other)) f,
      put_share-AreDistinct share ss v,
    )
  ]

  put_share-verified :
      (share : S) (msg : List ℕ) (ss : List (ℕ × S))
      → key.verify_share share msg ≡ true
      → All (λ p. key.verify_share p.1 msg ≡ true) ss
      → All (λ p. key.verify_share p.1 msg ≡ true) (put_share key share ss)
  put_share-verified share msg [] h v = (h, tt)
  put_share-verified share msg ((o, s) ∷ ss) h (w, v) = elim (Bool-cases (o == key.owner share)) [
    | inl own ↦ rw own (h, v)
    | inr other ↦ rw other (w, put_share-verified share msg ss h v)
  ]

  put_share-IsGenuine :
      (share : S) (msg : List ℕ) (ss : List (ℕ × S))
      → key.verify_share share msg ≡ true
      → IsGenuine msg ss
      → IsGenuine msg (put_share key share ss)
  put_share-IsGenuine share msg ss h (v, d) =
      (put_share-verified share msg ss h v, put_share-AreDistinct share ss d)

  AreDistinct-All :
      (o : ℕ) (ss : List (ℕ × S))
      → AreDistinct ss
      → All (λ p. p.0 ≢ o) ss
      → All (λ t. key.owner t ≢ o) (map (λ p. p.1) ss)
  AreDistinct-All o [] d v = tt
  AreDistinct-All o ((q, s) ∷ ss) (e, f, d) (w, v) = (λ k. w (sym e ∙ k), AreDistinct-All o ss d v)

  AreDistinct-HaveOwners : (ss : List (ℕ × S)) → AreDistinct ss → HaveOwners (map (λ p. p.1) ss)
  AreDistinct-HaveOwners [] d = tt
  AreDistinct-HaveOwners ((o, s) ∷ ss) (e, f, d) =
      (rw e (AreDistinct-All o ss d f), AreDistinct-HaveOwners ss d)

  shares_of-IsGenuine :
      (msg : List ℕ) (db : List (List ℕ × List (ℕ × S)))
      → AreGenuine db
      → IsGenuine msg (shares_of key msg db)
  shares_of-IsGenuine msg [] v = (tt, tt)
  shares_of-IsGenuine msg ((m, ss) ∷ db) (w, v) = elim (Bool-cases (hash_eq m msg)) [
    | inl hit ↦ rw hit (rw ((hash_eq_iff m msg).0 hit) at w)
    | inr miss ↦ rw miss (shares_of-IsGenuine msg db v)
  ]

  store_shares-AreGenuine :
      (msg : List ℕ) (new : List (ℕ × S)) (db : List (List ℕ × List (ℕ × S)))
      → IsGenuine msg new
      → AreGenuine db
      → AreGenuine (store_shares key msg new db)
  store_shares-AreGenuine msg new [] h v = (h, tt)
  store_shares-AreGenuine msg new ((m, ss) ∷ db) h (w, v) = elim (Bool-cases (hash_eq m msg)) [
    | inl hit ↦ rw hit (rw (sym ((hash_eq_iff m msg).0 hit)) at h, v)
    | inr miss ↦ rw miss (w, store_shares-AreGenuine msg new db h v)
  ]

  IsGenuine-shares :
      (msg : List ℕ) (ss : List (ℕ × S))
      → All (λ p. key.verify_share p.1 msg ≡ true) ss
      → All (λ s. key.verify_share s msg ≡ true) (map (λ p. p.1) ss)
  IsGenuine-shares msg [] v = tt
  IsGenuine-shares msg (p ∷ ss) (w, v) = (w, IsGenuine-shares msg ss v)

  decode_signature-encode_signature :
      (sig : G) (msg : List ℕ)
      → key.unmarshal_signature (key.marshal_signature sig) ≡ some sig
      → length msg ≡ proof_length
      → decode_signature key (encode_signature key sig msg) ≡ ok (sig, msg)
  unfolding decode_signature encode_signature
  decode_signature-encode_signature sig msg e l =
      let (a, b) = append_parts proof_length msg (key.marshal_signature sig) l in
      let long : ltb (length (msg ++ key.marshal_signature sig)) proof_length ≡ false =
        ground (arith, length-append msg (key.marshal_signature sig)) in
      rw (long, b, e, a)

  -- Data that is shorter than a message is a panic, so a message that was read is of the full length.
  length_of_message :
      (first_finishing level : ℕ) (payload : List ℕ) {built : List ℕ}
      (db : List (List ℕ × List (ℕ × S))) {db' : List (List ℕ × List (ℕ × S))}
      → try_building key first_finishing level payload db ≡ ok (some built, db')
      → length (take proof_length payload) ≡ proof_length
  unfolding try_building decode_share
  length_of_message first_finishing level payload db e =
      elim (Bool-cases (ltb level first_finishing || is_empty payload)) [
        | inl plain ↦ absurd (ground (arith, (rw plain at e)))
        | inr finishing ↦ elim (Bool-cases (ltb (length payload) proof_length)) [
          | inl short ↦ absurd (ground (arith, (rw (finishing, short) at e)))
          | inr long ↦ ground (arith, length-take proof_length payload)
        ]
      ]

  -- The signature that enough genuine shares of a message give is a proof for the epoch after the message's.
  complete-epoch_proof :
      (ss : List (ℕ × S)) (sig : G) (msg : List ℕ) (pu : Preunit)
      → ((m : List ℕ) (shares : List S) (g : G)
          → All (λ s. key.verify_share s m ≡ true) shares
          → HaveOwners shares
          → key.threshold ≤ length shares
          → key.combine_shares shares ≡ some g
          → key.verify_signature g m ≡ true)
      → ((g : G) → key.unmarshal_signature (key.marshal_signature g) ≡ some g)
      → IsGenuine msg ss
      → key.threshold ≤ length ss
      → key.combine_shares (map (λ p. p.1) ss) ≡ some sig
      → length msg ≡ proof_length
      → dealing pu ≡ true
      → pu.payload ≡ encode_signature key sig msg
      → (proof_epoch (decode_proof msg) + 1) % 2 ^ 32 ≡ pu.epoch_id
      → epoch_proof key pu true ≡ ok true
  unfolding epoch_proof
  complete-epoch_proof ss sig msg pu combined read_back v enough e l d p n =
      let read = decode_signature-encode_signature sig msg (read_back sig) l in
      let signed =
        combined msg (map (λ q. q.1) ss) sig (IsGenuine-shares msg ss v.0)
          (AreDistinct-HaveOwners ss v.1) (rw (length-map ss (λ q. q.1)) enough) e in
      let same : ((proof_epoch (decode_proof msg) + 1) % 2 ^ 32 == pu.epoch_id) ≡ true =
        ground (arith, n) in
      rw (d, p, read, same, signed)
        (elim (Bool-cases (pu.epoch_id == 0)) [ inl z ↦ rw z | inr z ↦ rw z ])

  -- A finished call of TryBuilding, taken apart: nothing is built, or enough genuine shares of a message are.
  pub record IsComplete (msg built : List ℕ) : Type 0 where
    shares : List (ℕ × S)
    sig : G
    genuine : IsGenuine msg shares
    enough : key.threshold ≤ length shares
    combines : key.combine_shares (map (λ p. p.1) shares) ≡ some sig
    encoded : built ≡ encode_signature key sig msg

  abbrev Finished :
      List ℕ → Outcome ProofError (Option (List ℕ) × List (List ℕ × List (ℕ × S))) → Type 0
  Finished msg (ok (none, db')) = AreGenuine db'
  Finished msg (ok (some built, db')) = AreGenuine db' × IsComplete msg built
  Finished msg (err e) = Unit
  Finished msg panic = Unit

  encode_built-Finished :
      (msg : List ℕ) (ss : List (ℕ × S)) (db' : List (List ℕ × List (ℕ × S)))
      → IsGenuine msg ss
      → AreGenuine db'
      → Finished msg (ok (encode_built key msg (combine_if_enough key ss, db')))
  encode_built-Finished msg ss db' v w = elim (Bool-cases (leb key.threshold (length ss))) [
    | inr few ↦ rw few w
    | inl enough ↦ elim (Option-cases (key.combine_shares (map (λ p. p.1) ss))) [
      | inl e ↦ rw (enough, e) w
      | inr (sig, e) ↦
          rw (enough, e)
            (
              w,
              record {
                shares = ss;
                sig = sig;
                genuine = v;
                enough = ground arith;
                combines = e;
                encoded = refl;
              },
            )
    ]
  ]

  try_building-Finished :
      (first_finishing level : ℕ) (payload : List ℕ) (db : List (List ℕ × List (ℕ × S)))
      → AreGenuine db
      → Finished (take proof_length payload) (try_building key first_finishing level payload db)
  unfolding try_building decode_share add_share
  try_building-Finished first_finishing level payload db v =
      elim (Bool-cases (ltb level first_finishing || is_empty payload)) [
        | inl plain ↦ rw plain v
        | inr finishing ↦ elim (Bool-cases (ltb (length payload) proof_length)) [
          | inl short ↦ rw (finishing, short) tt
          | inr long ↦ elim (Option-cases (key.unmarshal_share (drop proof_length payload))) [
            | inl e ↦ rw (finishing, long, e) v
            | inr (share, e) ↦
                let msg = take proof_length payload in
                elim (Bool-cases (key.verify_share share msg)) [
                  | inr forged ↦ rw (finishing, long, e, forged) tt
                  | inl signed ↦
                      let ss =
                        put_share-IsGenuine share msg _ signed (shares_of-IsGenuine msg db v) in
                      rw (finishing, long, e, signed)
                        (encode_built-Finished msg _ _ ss (store_shares-AreGenuine msg _ db ss v))
                ]
          ]
        ]
      ]

  -- Where TryBuilding returns data for a unit of `payload`, a dealing unit that carries this data is accepted
  -- by EpochProof for the epoch after the one that the message of `payload` names; and the shares stored
  -- afterwards all verify for the messages they are stored under, one of each owner, if it was so before. It is
  -- assumed that a signature combined from verified shares of different owners, at least as many as the threshold,
  -- verifies, and that signatures are read back as they were written.
  pub try_building-epoch_proof :
      (first_finishing level : ℕ) (payload built : List ℕ) (db db' : List (List ℕ × List (ℕ × S)))
      (pu : Preunit)
      → ((m : List ℕ) (shares : List S) (g : G)
          → All (λ s. key.verify_share s m ≡ true) shares
          → HaveOwners shares
          → key.threshold ≤ length shares
          → key.combine_shares shares ≡ some g
          → key.verify_signature g m ≡ true)
      → ((g : G) → key.unmarshal_signature (key.marshal_signature g) ≡ some g)
      → AreGenuine db
      → try_building key first_finishing level payload db ≡ ok (some built, db')
      → dealing pu ≡ true
      → pu.payload ≡ built
      → (proof_epoch (decode_proof (take proof_length payload)) + 1) % 2 ^ 32 ≡ pu.epoch_id
      → (epoch_proof key pu true ≡ ok true) × AreGenuine db'
  try_building-epoch_proof first_finishing level payload built db db' pu combined read_back v e d p
        n =
      let w = try_building-Finished first_finishing level payload db v in
      let (genuine, c) = (rw e at w) in
      (
        complete-epoch_proof c.shares c.sig (take proof_length payload) pu combined read_back
            c.genuine c.enough c.combines (length_of_message first_finishing level payload db e) d
            (p ∙ c.encoded) n,
        genuine,
      )

  -- Finishing data that is shorter than a message, or that holds a share that does not verify.
  abbrev pub IsPanic : ℕ → ℕ → List ℕ → Type 0
  IsPanic first_finishing level payload =
      ((ltb level first_finishing || is_empty payload) ≡ false)
      × ((length payload < proof_length)
          ⊎ ((share : S) × (proof_length ≤ length payload)
              × (key.unmarshal_share (drop proof_length payload) ≡ some share)
              × (key.verify_share share (take proof_length payload) ≡ false)))

  -- TryBuilding panics exactly on the non-empty data of a unit on a finishing level where the data is shorter
  -- than a message, or where it holds a share that can be read and does not verify for its message.
  pub try_building_panics :
      (first_finishing level : ℕ) (payload : List ℕ) (db : List (List ℕ × List (ℕ × S)))
      → (try_building key first_finishing level payload db ≡ panic)
        ↔ IsPanic first_finishing level payload
  unfolding try_building decode_share
  try_building_panics first_finishing level payload db = (there, back)
    where
      there :
          try_building key first_finishing level payload db ≡ panic
          → IsPanic first_finishing level payload
      there e = elim (Bool-cases (ltb level first_finishing || is_empty payload)) [
        | inl plain ↦ absurd (ground (arith, (rw plain at e)))
        | inr finishing ↦ elim (Bool-cases (ltb (length payload) proof_length)) [
          | inl short ↦ (finishing, inl (ground arith))
          | inr long ↦ elim (Option-cases (key.unmarshal_share (drop proof_length payload))) [
            | inl f ↦ absurd (ground (arith, (rw (finishing, long, f) at e)))
            | inr (share, f) ↦
                elim (Bool-cases (key.verify_share share (take proof_length payload))) [
                  | inl signed ↦ absurd (ground (arith, (rw (finishing, long, f, signed) at e)))
                  | inr forged ↦ (finishing, inr (share, ground arith, f, forged))
                ]
          ]
        ]
      ]

      back :
          IsPanic first_finishing level payload
          → try_building key first_finishing level payload db ≡ panic
      back (finishing, inl short) = rw (finishing, lt→ltb (length payload) proof_length short)
      back (finishing, inr (share, long, f, forged)) =
          let l : ltb (length payload) proof_length ≡ false = ground arith in
          rw (finishing, l, f, forged)
