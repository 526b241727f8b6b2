-- ===== src/Random/Coin.antt =====
-- pkg/random/coin/coin.go, and the maps and slices of pkg/random/sync.go that it uses.
use consensus_go.Base.{
  ℕ, zero, suc, ◌+◌, ◌-◌, ◌*◌, ◌^◌, Bool, true, false, not, ◌&&◌, ◌||◌, List, [], ◌∷◌, ◌++◌, Option,
  none, some, ltb, ◌==◌, if◌then◌else◌, length, take, drop, get_elem?, replicate,
}
use consensus_go.Base.Outcome.{Outcome, ok, err, panic, ◌>>=◌}
use consensus_go.Gomel.Hash.{hash_eq}
use consensus_go.Gomel.Preunit.{put_uint, dealing}
use consensus_go.Gomel.Unit.{UnitInterface, creator, epoch_id, hash}
use consensus_go.Dag.Slots.{iterate}
use consensus_go.Dag.Bag.{Bag, get_one, add}
use consensus_go.Dag.Store.{Store, units_on_level}

-- What the package uses of tss.WeakThresholdKey of core-go. Parsing a share gives the share as it is left
-- after that, and whether there was no error.
pub record WeakThresholdKey (S G : Type 0) : Type 0 where
  pub marshal_share : S → List ℕ
  pub parse_share : List ℕ → S × Bool
  pub marshal_signature : G → List ℕ
  pub unmarshal_signature : List ℕ → Option G
  pub signature_length : ℕ
  pub threshold : ℕ
  pub create_share : List ℕ → S
  pub combine_shares : List S → Option G
  pub verify_signature : G → List ℕ → Bool

pub data CoinError : Type 0 where
  share_malformed data_too_short incorrect_bytes signature_malformed data_not_empty : CoinError
  not_combined coin_not_verified : CoinError

pub record Coin (S : Type 0) : Type 0 where
  pub pid : ℕ
  pub coin_shares : Bag S
  pub share_providers : ℕ → Bool
  pub random_bytes : List (List ℕ)

unfoldable pub new_coin : {S : Type 0} → ℕ → (ℕ → Bool) → Coin S
new_coin pid share_providers = record {
  pid = pid;
  coin_shares = [];
  share_providers = share_providers;
  random_bytes = [];
}

-- put_uint takes the number modulo 2^64, as Go's sum does.
unfoldable pub nonce : ℕ → ℕ → List ℕ
nonce l epoch = put_uint 8 (epoch * 2 ^ 16 + l)

-- AppendOrIgnore.
unfoldable pub append_or_ignore : List (List ℕ) → ℕ → List ℕ → List (List ℕ)
append_or_ignore contents l bs = if length contents == l then contents ++ (bs ∷ []) else contents

-- The bytes of a slice that may be nil.
abbrev pub bytes : Option (List ℕ) → List ℕ
bytes none = []
bytes (some bs) = bs

abbrev pub is_slice : Option (List ℕ) → Bool
is_slice none = false
is_slice (some bs) = true

module _ {S G : Type 0} (key : WeakThresholdKey S G) where
  unfoldable pub dealing_data : Coin S → ℕ → Option (List ℕ)
  dealing_data s epoch =
      if s.share_providers s.pid
      then some (key.marshal_share (key.create_share (nonce 0 epoch)))
      else none

  abbrev pub check_share : List ℕ → Outcome CoinError Unit
  check_share bs = if (key.parse_share bs).1 then ok tt else err share_malformed

  abbrev pub verified_or_error : Option G → ℕ → ℕ → Outcome CoinError Unit
  verified_or_error none l epoch = err signature_malformed
  verified_or_error (some coin) l epoch =
      if key.verify_signature coin (nonce l epoch) then ok tt else err incorrect_bytes

  -- The bytes of a unit on level l + 1, against those that are known for level l.
  unfoldable pub check_bytes : Option (List ℕ) → List ℕ → ℕ → ℕ → Outcome CoinError Unit
  check_bytes none bs l epoch = verified_or_error (key.unmarshal_signature bs) l epoch
  check_bytes (some known) bs l epoch = if hash_eq known bs then ok tt else err incorrect_bytes

  -- `rs u` is u.RandomSourceData(), which a Preunit has with nil as the empty list. The functions are called on
  -- units of the dag, where Go's slicing panics on data that is shorter than its bounds.
  module _ {U : Type 0} ⦃i : UnitInterface U⦄ (rs : U → Option (List ℕ)) where
    abbrev pub add_share : Coin S → U → List ℕ → Coin S
    add_share s u bs =
        if s.share_providers (creator u)
        then record s { coin_shares = add s.coin_shares (hash u) (key.parse_share bs).0 }
        else s

    abbrev pub add_bytes : Coin S → ℕ → List ℕ → Coin S
    add_bytes s l bs = record s { random_bytes = append_or_ignore s.random_bytes l bs }

    -- Level - 1 is -1 only for a unit of level 0, to whose length the slice is then never equal.
    unfoldable pub update : Coin S → U → Outcome CoinError (Coin S)
    update s u =
        let n = key.signature_length in
        let bs = bytes (rs u) in
        if dealing (i.preunit u)
        then ok (add_share s u bs)
        else if ltb (length bs) n
        then panic
        else if i.level u == 0
        then ok (add_share s u (drop n bs))
        else ok (add_bytes (add_share s u (drop n bs)) (i.level u - 1) (take n bs))

    abbrev pub check_later_share : Coin S → U → List ℕ → Outcome CoinError Unit
    check_later_share s u bs = if s.share_providers (creator u) then check_share bs else ok tt

    -- Get panics at -1, that is, for a unit of level 0 that is not dealing.
    unfoldable pub check_compliance : Coin S → U → Outcome CoinError Unit
    check_compliance s u =
        let n = key.signature_length in
        let bs = bytes (rs u) in
        if dealing (i.preunit u) && s.share_providers (creator u)
        then check_share bs
        else if not (dealing (i.preunit u))
        then if ltb (length bs) n
          then err data_too_short
          else if i.level u == 0
          then panic
          else (check_bytes (get_elem? s.random_bytes (i.level u - 1)) (take n bs) (i.level u - 1)
                (epoch_id u)
              >>= (λ _. check_later_share s u (drop n bs)))
        else if is_slice (rs u)
        then err data_not_empty
        else ok tt

    abbrev pub collect_share :
        Option S → U → List S × (ℕ → Bool) → List S × (ℕ → Bool) × Bool → List S × (ℕ → Bool) × Bool
    collect_share none v (shares, collected) rest = rest
    collect_share (some cs) v (shares, collected) rest = (
      shares ++ (cs ∷ []),
      (λ c. c == creator v || collected c),
      not (length shares + 1 == key.threshold),
    )

    -- The units of one creator, and whether to go on with the next.
    unfoldable pub collect_shares :
        Coin S → List U → List S × (ℕ → Bool) → List S × (ℕ → Bool) × Bool
    collect_shares s [] (shares, collected) = (shares, collected, true)
    collect_shares s (v ∷ vs) (shares, collected) =
        let rest = collect_shares s vs (shares, collected) in
        if not (s.share_providers (creator v)) || collected (creator v)
        then rest
        else collect_share (get_one s.coin_shares (hash v)) v (shares, collected) rest

    abbrev pub coin_or_error : Option G → ℕ → ℕ → Outcome CoinError (List ℕ)
    coin_or_error none l epoch = err not_combined
    coin_or_error (some coin) l epoch =
        if key.verify_signature coin (nonce l epoch)
        then ok (key.marshal_signature coin)
        else err coin_not_verified

    -- UnitsOnLevel never answers nil.
    unfoldable pub combine_shares : Coin S → Store U → ℕ → Outcome CoinError (List ℕ)
    combine_shares s d l =
        let work : List U → List S × (ℕ → Bool) → (List S × (ℕ → Bool)) × Bool =
          λ vs st. let r = collect_shares s vs st in ((r.0, r.1), r.2) in
        coin_or_error (key.combine_shares (iterate work (units_on_level d l) ([], λ c. false)).0) l
          d.epoch

    -- The random bytes of the level before: those that are known, or those that are combined and then known.
    unfoldable pub bytes_or_combined :
        Coin S → Store U → ℕ → Option (List ℕ) → Outcome CoinError (List ℕ × Coin S)
    bytes_or_combined s d l (some rbl) =
        ok (take key.signature_length (rbl ++ replicate key.signature_length 0), s)
    bytes_or_combined s d l none = combine_shares s d l >>= λ rb.
        ok (rb, record s { random_bytes = append_or_ignore s.random_bytes l rb })

    -- A slice of signature length is made of the known bytes.
    unfoldable pub data_to_include : Coin S → Store U → ℕ → Outcome CoinError (List ℕ × Coin S)
    data_to_include s d zero = panic
    data_to_include s d (suc l) = bytes_or_combined s d l (get_elem? s.random_bytes l) >>= λ r. ok (
      (if s.share_providers s.pid
          then r.0 ++ key.marshal_share (key.create_share (nonce (suc l) d.epoch))
          else r.0),
      r.1,
    )
