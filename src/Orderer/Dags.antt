-- ===== src/Orderer/Dags.antt =====
-- pkg/orderer/epoch.go: the dag of pkg/dag, with units of pkg/unit, as that of an epoch.
use consensus_go.Base.{ℕ, ◌≡◌, refl, List, Option, length}
use consensus_go.Base.Outcome.{Outcome, ok, err, panic, Post, post_bind, post_ok}
use consensus_go.Gomel.Hash.{hash_eq_refl}
use consensus_go.Gomel.Preunit.{Preunit}
use consensus_go.Gomel.Unit.{UnitInterface, hash, height, creator}
use consensus_go.Dag.Bag.{add, get_one-add}
use consensus_go.Dag.Fibers.Growth.{add_unit}
use consensus_go.Dag.Store.{Store, new_store, get_unit, get_by_id, units_above}
use consensus_go.Dag.Adding.{AddError, insert_embedded, insert}
use consensus_go.Units.Node.{Node, node_unit, preunit_of}
use consensus_go.Units.Build.{embed}
use consensus_go.Orderer.State.{EpochInterface}
use consensus_go.Orderer.Lookup.{Holds}

post_always : {E A : Type 0} (m : Outcome E A) → Post m (λ _. Unit {0})
post_always (ok a) = tt
post_always (err e) = tt
post_always panic = tt

module _ {U : Type 0} ⦃i : UnitInterface U⦄ where
  -- Whatever else it does, an insertion adds the unit under its hash.
  insert_embedded-units :
      (E : Type 0) (u : U) (d : Store U)
      → Post (insert_embedded {E = E} u d) (λ d'. d'.units ≡ add d.units (hash u) u)
  unfolding insert_embedded
  insert_embedded-units E u d =
      post_bind (add_unit {E = E} d.height_units (height u) (creator u) u) _ (λ _. Unit {0}) _
        (post_always _)
        (λ hs _.
          post_bind (add_unit {E = E} d.level_units (i.level u) (creator u) u) _ (λ _. Unit {0}) _
            (post_always _) (λ ls _. refl))

module _ {X : Type 0} (n_proc epoch_length : ℕ) (pre post : List (Node → X → X)) (start : X)
    (add_to_adder : ℕ
      → List Preunit
      → Store Node × X
      → Outcome (AddError Node) ((Store Node × X) × List (Option (AddError Node))))
    (data_to_include : Store Node × X
      → List (Option Node)
      → ℕ
      → Outcome (AddError Node) (List ℕ)) where
  -- The hooks act on a state of type `X`, in which the rest of an epoch stands; the number of units in the dag is the
  -- identity of the object that Embed makes.
  abbrev pub dag_parts : EpochInterface Node (AddError Node) (Store Node × X)
  dag_parts = record {
    create = λ epoch. (new_store n_proc epoch epoch_length, start);
    add_to_adder = add_to_adder;
    insert_unit = λ u d. insert (embed (length d.0.units)) pre post u d;
    unit_by_hash = λ d h. get_unit d.0 h;
    units_by_id = λ d n. get_by_id d.0 n;
    units_over = λ d heights. units_above d.0 heights;
    maximal = λ d. d.0.max_units;
    data_to_include = data_to_include;
  }

  -- The dag that took a unit in finds a unit with its hash, which is not the same object.
  pub dag_parts-Holds :
      (u : Node) (d d' : Store Node × X) → dag_parts.insert_unit u d ≡ ok d' → Holds dag_parts u d'
  unfolding insert embed preunit_of
  dag_parts-Holds u (d, x) d' taken =
      let v = embed (length d.units) u d.max_units in
      let units : d'.0.units ≡ add d.units (hash v) v =
        post_ok (insert (embed (length d.units)) pre post u (d, x)) _ d'
          (post_bind (insert_embedded {E = AddError Node} v d) _
            (λ e. e.units ≡ add d.units (hash v) v) (λ r. r.0.units ≡ add d.units (hash v) v)
            (insert_embedded-units (AddError Node) v d) (λ e same. same))
          taken in
      (v, rw (units, get_one-add d.units (hash v) v (hash u), hash_eq_refl (hash u)) refl, refl)
