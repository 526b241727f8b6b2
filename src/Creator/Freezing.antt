-- ===== src/Creator/Freezing.antt =====
-- pkg/creator/creator.go: freezeParent, which replaces a candidate and leaves the counters.
use consensus_go.Base.{
  ℕ, ◌+◌, ◌-◌, ◌^◌, ◌≡◌, ◌<◌, refl, ap, true, Option, some, arith, ◌==◌, if◌then◌else◌, length, set,
  length-set, ◌∙◌, sym,
}
use consensus_go.Gomel.Unit.{UnitInterface, slot, level_from_parents}
use consensus_go.Creator.Consistency.{rung}
use consensus_go.Creator.State.{CreatorConfig, Services, Creator, freeze_parent}
use consensus_go.Creator.Candidates.{count_at-set, AreUpTo-set, IsCounted, IsCounted-level}

module _ {U P X : Type 0} ⦃i : UnitInterface U⦄ (conf : CreatorConfig) where
  -- The state with the counters that the frozen candidates have.
  abbrev recounted : Creator U P X → ℕ → Option U → Creator U P X
  recounted s pid p = record s {
    candidates = set s.candidates pid p;
    on_max_lvl = s.on_max_lvl - 1;
    level = s.max_lvl - 1;
  }

  recounted-IsCounted :
      (s : Creator U P X) (pid : ℕ) (p : Option U)
      → pid < length s.candidates
      → 1 < conf.quorum
      → s.on_max_lvl ≡ conf.quorum
      → rung (slot s.candidates pid) ≡ s.max_lvl
      → rung p < s.max_lvl
      → IsCounted conf s
      → IsCounted conf (recounted s pid p)
  recounted-IsCounted s pid p inside several exact top lower v = record {
    up_to = AreUpTo-set s.max_lvl pid s.candidates p (omega arith) v.up_to;
    counted = ground (arith, count_at-set s.max_lvl pid s.candidates p inside, v.counted);
    reached = λ h. omega arith;
    level_counted = ground arith;
  }

  -- freezeParent can leave the creator with a level that is one too high for its candidates: where exactly a
  -- quorum of candidates is on the highest level, the frozen one among them, and our last unit has a lower
  -- parent for that process or none. The quorum is above 1, it is the minimal quorum for the number of
  -- candidates, which is below 2^16, and the counters were right before.
  pub freeze_parent-level :
      (services : Services U P X) (minimal_quorum : ℕ → ℕ) (s : Creator U P X) (pid : ℕ) (own : U)
      → slot s.candidates conf.pid ≡ some own
      → pid < length s.candidates
      → length s.candidates < 2 ^ 16
      → conf.quorum ≡ minimal_quorum (length s.candidates)
      → 1 < conf.quorum
      → s.on_max_lvl ≡ conf.quorum
      → rung (slot s.candidates pid) ≡ s.max_lvl
      → rung (slot (i.parents own) pid) < s.max_lvl
      → IsCounted conf s
      → (t : Creator U P X) × (freeze_parent conf services pid s
          ≡ some (slot (i.parents own) pid, t))
        × (t.candidates ≡ set s.candidates pid (slot (i.parents own) pid))
        × (t.level ≡ level_from_parents minimal_quorum t.candidates + 1)
  unfolding freeze_parent
  freeze_parent-level services minimal_quorum s pid own mine inside small q several exact top lower
        v =
      let p = slot (i.parents own) pid in
      let long = length-set s.candidates pid p in
      let right =
        IsCounted-level conf minimal_quorum (recounted s pid p) (omega (arith, long))
          (q ∙ ap minimal_quorum (sym long)) (omega arith)
          (recounted-IsCounted s pid p inside several exact top lower v) in
      (
        record s {
          candidates = set s.candidates pid p;
          frozen = λ r. if r == pid then true else s.frozen r;
        },
        rw mine refl,
        refl,
        ground (arith, right, v.level_counted),
      )
