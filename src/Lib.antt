-- ===== src/Lib.antt =====
-- The Aleph consensus protocol: a verification library for the Go code under pkg/.
--
-- Processes exchange units. A unit names, for each process, at most one parent; the units that a
-- process has received form a dag, one for each epoch. A received preunit is decoded, its parents are
-- looked up in the dag, the unit is built and checked and then inserted. From the dag alone every
-- process computes the same linear order: on each level a timing unit is chosen by virtual voting, and
-- each timing unit brings the units below it, that no earlier one brought, into the order.
--
-- The files and the code:
-- - Base and its children: lists, integers, tests and the outcome of fallible code (a value, an error or
--   a panic).
-- - Gomel/Id, Hash, Preunit, Unit: pkg/gomel/preunit.go (ID, DecodeID), hash.go (LessThan, XOR,
--   CombineHashes), unit.go and crown.go (Above, LevelFromParents, MaximalByPid, CrownFromParents), and
--   pkg/unit/preunit.go (NewPreunit, computeHash). The interface gomel.Unit is the record UnitInterface,
--   and what uses units takes an instance of it.
-- - Units/Node, Build: pkg/unit/free_unit.go and unit_in_dag.go, units as trees with the identity of
--   their objects, an instance of UnitInterface.
-- - Encoding/Wire, Encoder, Decoder, Chunk: pkg/encoding. A writer is a state with a write that may
--   fail, a reader a list of bytes; Encoding/Crowns, Units, Infos, Canonical, Sorting
--   and Cells have the proofs.
-- - Dag/Slots, Fibers, Bag, Store, Adding: pkg/dag, one file for each of slotted_units.go, fiber_map.go,
--   unit_bag.go, dag.go and adding.go; Dag/Fibers/Growth has the update of a fiber map. A Go map is an
--   association list. Dag/Check: pkg/dag/check. Dag/Parents and Dag/Insertion have the proofs.
-- - Linear/Votes, Decider, Crp, Extender, TimingRound, Sort: pkg/linear, one file for each of
--   unanimous_voting.go, super_majority_deciding.go, crp.go, extender.go and timing_round.go, and
--   sort.Slice of Go. Memo, Primes, Decisions, Rotation, Candidates, Choosing, Ordered, Once, Accounted,
--   Below, Layers, Advance and Topology have the proofs.
-- - Creator/Consistent, State, Proofs: pkg/creator/creator.go (Consistent has MakeConsistent, State the
--   Creator and its methods) and proofs.go. What a creator is given, unit.New with its key among it, is the
--   record Services, and the threshold key of core-go the record ThresholdKey. Consistency, Candidates,
--   Running, Ending, Freezing and Shares have the proofs.
-- - Orderer/State, Operations, Timing: pkg/orderer/epoch.go and orderer.go, and MaxView of
--   pkg/gomel/daginfo.go. What an epoch contains is the record EpochInterface, whose operations may fail; Dags has the
--   dag of pkg/dag in its place. Timing has handleTimingRounds, and
--   Operations what the other parts call; Epochs, Reachable, Lookup and Rounds have the proofs. The
--   calls in any order are the step relation of Reachable.
-- - Adder/Maps, State, Waiting, Ready: pkg/adder (adder.go, missing_preunit.go and waiting_preunit.go). Waiting
--   preunits are objects that refer to one another by number. Waiting has AddPreunits and what it calls, Ready
--   what a worker does; Removal, Counting, Kept, Steps and Insertion have the proofs. Calls and runs of workers in
--   any order are the step relation of Steps. Dag/View has the heights of MaxView.
-- - Config/Settings, Checks: pkg/config/config.go (New, NewSetup and what they call) and checks.go, with the
--   member and committee of committee.go as they are in memory; Validity has the proofs.
-- - Random/Coin: pkg/random/coin/coin.go and the parts of pkg/random/sync.go that it uses. The threshold key of core-go is the
--   record WeakThresholdKey; Agreement has the proofs.
-- - Tests: the theorems at concrete inputs.
--
-- Parameters. The hash function (sha3), Sign, crypto.MinimalQuorum, the random bytes of a process and a
-- level, the checks of a dag and its hooks are arguments. What a theorem needs of them is among its
-- hypotheses. A unit is any type with an instance of UnitInterface.
--
-- State. An operation of Go that changes an object takes the state and answers with the new one. A shared
-- decider stands in the map of the extender, and a memo of votes is passed from call to call.
--
-- Integers. uint16, uint32 and uint64 keep their wrap-around written out; an int is a number, or an
-- integer where it can be negative.
--
-- Fuel. dfs and computeLayer take fuel for the depth of their recursion, which Go bounds by the dag: each
-- step goes to a parent. The theorems on a whole round take a fuel above the rank of the timing unit. The walk to a prime ancestor has the height of its unit as fuel: a unit is one
-- higher than its predecessor. A vote recurses on the number of levels above the candidate.
--
-- sortChunk takes fuel for its loop over epochs, whose counter is a uint32: 2^32 rounds are enough unless the chunk has a
-- unit of epoch 2^32-1, on which the loop does not end.
--
-- Not modelled: locks, goroutines and channels, and the network; alerts, the beacon of the setup and the syncing protocols.
-- A send of the adder to the worker of the own process, which blocks for ever, is a send like any other; and nil and
-- empty slices are one list, except as random source data in Random/Coin.
pub mod Base
pub mod Gomel
pub mod Encoding
pub mod Dag
pub mod Linear
pub mod Units
pub mod Creator
pub mod Orderer
pub mod Adder
pub mod Config
pub mod Random
mod Tests
