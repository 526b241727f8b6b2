-- ===== src/Linear/Topology.antt =====
-- pkg/linear/timing_round.go: parents and children in the order of a round.
use consensus_go.Gomel.Hash.{Hash}
