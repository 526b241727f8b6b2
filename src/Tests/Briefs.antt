-- ===== src/Tests/Briefs.antt =====
-- Units that are little more than three numbers, for the tests.
use consensus_go.Base.{ℕ, [], ◌∷◌, false, ◌==◌}
use consensus_go.Gomel.Preunit.{Preunit}
use consensus_go.Gomel.Unit.{UnitInterface}

-- Units that are a creator, an epoch and a level.
pub record Brief : Type 0 where
  pub author : ℕ
  pub epoch : ℕ
  pub on_level : ℕ

abbrev pub brief_preunit : Brief → Preunit
brief_preunit u = record {
  creator = u.author;
  epoch_id = u.epoch;
  height = u.on_level;
  signature = [];
  hash = u.author ∷ u.epoch ∷ u.on_level ∷ [];
  crown = record { heights = []; control_hash = [] };
  payload = [];
  rs_payload = [];
}

instance abbrev pub brief_unit : UnitInterface Brief
brief_unit = record {
  preunit = brief_preunit;
  parents = λ u. [];
  level = λ u. u.on_level;
  above_within_proc = λ u v. false;
  floor = λ u pid. [];
  same = λ u v. u.on_level == v.on_level;
}

abbrev pub brief : ℕ → ℕ → ℕ → Brief
brief author epoch on_level = record { author = author; epoch = epoch; on_level = on_level }
