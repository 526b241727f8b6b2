-- ===== src/Tests/Samples.antt =====
-- A dag of two processes and five units, for the tests.
use consensus_go.Base.{
  ℕ, ◌≡◌, refl, sym, ap, ◌∙◌, List, [], ◌∷◌, ◌&&◌, Option, none, some, leb, ◌==◌, if◌then◌else◌,
  map,
}
use consensus_go.Base.Int.{ℤ, pos, negsuc}
use consensus_go.Gomel.Hash.{Hash}
use consensus_go.Gomel.Preunit.{Preunit}
use consensus_go.Gomel.Unit.{UnitInterface, slot, hash}

-- Two dealing units, a unit above both for each process, and a third unit of the first process.
pub data Sample : Type 0 where
  first_dealing second_dealing first_prime second_prime third_prime : Sample

abbrev pub number : Sample → ℕ
number first_dealing = 10
number second_dealing = 11
number first_prime = 12
number second_prime = 13
number third_prime = 14

abbrev pub sample_parents : Sample → List (Option Sample)
sample_parents first_dealing = none ∷ (none ∷ [])
sample_parents second_dealing = none ∷ (none ∷ [])
sample_parents first_prime = some first_dealing ∷ (some second_dealing ∷ [])
sample_parents second_prime = some first_dealing ∷ (some second_dealing ∷ [])
sample_parents third_prime = some first_prime ∷ (some second_prime ∷ [])

abbrev pub sample_height : Sample → ℕ
sample_height first_dealing = 0
sample_height second_dealing = 0
sample_height first_prime = 1
sample_height second_prime = 1
sample_height third_prime = 2

abbrev pub sample_creator : Sample → ℕ
sample_creator first_dealing = 0
sample_creator second_dealing = 1
sample_creator first_prime = 0
sample_creator second_prime = 1
sample_creator third_prime = 0

abbrev pub height_of_parent : Option Sample → ℤ
height_of_parent none = negsuc 0
height_of_parent (some p) = pos (sample_height p)

abbrev pub sample_preunit : Sample → Preunit
sample_preunit u = record {
  creator = sample_creator u;
  epoch_id = 0;
  height = sample_height u;
  signature = [];
  hash = number u ∷ [];
  crown = record { heights = map height_of_parent (sample_parents u); control_hash = [] };
  payload = [];
  rs_payload = [];
}

abbrev pub or_nothing : Option Sample → List Sample
or_nothing none = []
or_nothing (some u) = u ∷ []

instance abbrev pub sample_unit : UnitInterface Sample
sample_unit = record {
  preunit = sample_preunit;
  parents = sample_parents;
  level = sample_height;
  above_within_proc =
      λ u v. sample_creator u == sample_creator v && leb (sample_height v) (sample_height u);
  floor = λ u pid. or_nothing (slot (sample_parents u) pid);
  same = λ u v. number u == number v;
}

abbrev from_number : ℕ → Sample
from_number n =
    if n == 10
    then first_dealing
    else if n == 11
    then second_dealing
    else if n == 12
    then first_prime
    else if n == 13
    then second_prime
    else third_prime

abbrev from_hash : Hash → Sample
from_hash [] = first_dealing
from_hash (n ∷ ns) = from_number n

from_hash-hash : (u : Sample) → from_hash (hash u) ≡ u
from_hash-hash first_dealing = refl
from_hash-hash second_dealing = refl
from_hash-hash first_prime = refl
from_hash-hash second_prime = refl
from_hash-hash third_prime = refl

pub sample_hash-injective : (u w : Sample) → hash u ≡ hash w → u ≡ w
sample_hash-injective u w e = sym (from_hash-hash u) ∙ ap from_hash e ∙ from_hash-hash w
