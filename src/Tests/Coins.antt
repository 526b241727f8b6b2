-- ===== src/Tests/Coins.antt =====
-- The theorems on random bytes with a small threshold key.
use consensus_go.Base.{
  ℕ, ◌≡◌, refl, Bool, true, false, List, [], ◌∷◌, Option, none, some, arith, ◌==◌, get_elem?,
}
use consensus_go.Base.Outcome.{ok, err, Returns}
use consensus_go.Gomel.Hash.{hash_eq}
use consensus_go.Gomel.Preunit.{put_uint, dealing}
use consensus_go.Dag.Slots.{iterate}
use consensus_go.Dag.Bag.{get_one}
use consensus_go.Dag.Fibers.{find, get_fiber}
use consensus_go.Dag.Store.{Store, units_on_level}
use consensus_go.Random.Coin.{
  WeakThresholdKey, Coin, CoinError, nonce, append_or_ignore, update, check_compliance,
  collect_shares, combine_shares, bytes_or_combined, data_to_include, data_not_empty,
}
use consensus_go.Random.Agreement.{IsThresholdKey, data_to_include-accepted, update-IsCoin}
use consensus_go.Tests.Briefs.{Brief, brief, brief_unit}

abbrev first_of : List ℕ → ℕ
first_of [] = 0
first_of (b ∷ bs) = b

abbrev first_share : List ℕ → ℕ × Bool
first_share [] = (0, false)
first_share (b ∷ bs) = (b, true)

abbrev only_byte : List ℕ → Option ℕ
only_byte [] = none
only_byte (b ∷ []) = some b
only_byte (b ∷ c ∷ bs) = none

abbrev some_first : List ℕ → Option ℕ
some_first [] = none
some_first (b ∷ bs) = some b

-- Shares and signatures are the first byte of the message.
abbrev byte_key : WeakThresholdKey ℕ ℕ
byte_key = record {
  marshal_share = λ s. s ∷ [];
  parse_share = first_share;
  marshal_signature = λ g. g ∷ [];
  unmarshal_signature = only_byte;
  signature_length = 1;
  threshold = 1;
  create_share = first_of;
  combine_shares = some_first;
  verify_signature = λ g msg. g == first_of msg;
}

only_byte-canonical : (bs : List ℕ) (g : ℕ) → only_byte bs ≡ some g → bs ≡ g ∷ []
only_byte-canonical [] g h = absurd (ground (arith, h))
only_byte-canonical (b ∷ []) g h = ground (arith, h)
only_byte-canonical (b ∷ c ∷ bs) g h = absurd (ground (arith, h))

byte_key-IsThresholdKey : IsThresholdKey byte_key
byte_key-IsThresholdKey = record {
  reads_share = λ s. refl;
  reads_signature = λ g. refl;
  canonical = only_byte-canonical;
  signature_size = λ g. refl;
  unique = λ g h msg v w. ground (arith, v, w);
}

-- The coin of the first process, which has seen its own dealing unit, and that of the second, which has seen nothing.
abbrev one_share : Coin ℕ
one_share = record {
  pid = 0;
  coin_shares = ((0 ∷ 0 ∷ 0 ∷ []), 0) ∷ [];
  share_providers = λ c. c == 0;
  random_bytes = [];
}

abbrev no_share : Coin ℕ
no_share = record { pid = 1; coin_shares = []; share_providers = λ c. c == 0; random_bytes = [] }

abbrev one_dealing : Store Brief
one_dealing = record {
  n_proc = 2;
  epoch = 0;
  units = [];
  level_units = record { width = 2; len = 1; content = (0, ((brief 0 0 0 ∷ []) ∷ [] ∷ [])) ∷ [] };
  height_units = record { width = 2; len = 0; content = [] };
  max_units = [];
}

abbrev carried : Brief → Option (List ℕ)
carried u = some (0 ∷ 1 ∷ [])

abbrev combined : Coin ℕ
combined = record one_share { random_bytes = (0 ∷ []) ∷ [] }

one_share-included :
    data_to_include byte_key carried one_share one_dealing 1 ≡ ok ((0 ∷ 1 ∷ []), combined)
unfolding data_to_include bytes_or_combined combine_shares iterate units_on_level get_fiber find
    collect_shares get_one hash_eq nonce put_uint append_or_ignore
one_share-included = refl

brief-live : dealing (brief_unit.preunit (brief 0 0 1)) ≡ false
unfolding dealing
brief-live = refl

data_to_include-accepted_example : check_compliance byte_key carried no_share (brief 0 0 1) ≡ ok tt
data_to_include-accepted_example =
    data_to_include-accepted byte_key byte_key-IsThresholdKey carried one_share one_dealing 0
      (0 ∷ 1 ∷ []) combined no_share (brief 0 0 1) (λ l bs h. absurd (ground (arith, h)))
      one_share-included (λ l bs h. absurd (ground (arith, h))) refl refl refl brief-live refl refl

-- A dealing unit of a process without shares is refused if its empty data are a slice.
empty_slice-refused :
    check_compliance byte_key (λ u. some []) no_share (brief 1 0 0) ≡ err data_not_empty
unfolding check_compliance dealing
empty_slice-refused = refl

update-IsCoin_example :
    Returns {E = CoinError} (update byte_key carried no_share (brief 0 0 1)) (λ s.
      (l : ℕ) (bs : List ℕ)
      → get_elem? s.random_bytes l ≡ some bs
      → (g : ℕ) × (bs ≡ g ∷ []) × ((g == first_of (nonce l 0)) ≡ true))
update-IsCoin_example =
    update-IsCoin byte_key byte_key-IsThresholdKey carried no_share (brief 0 0 1)
      (λ l bs h. absurd (ground (arith, h))) data_to_include-accepted_example
