-- ===== src/Examples/Cluster.antt =====
-- A store of two replicas (netrix/types/replica.go).
use tendermint_testing.Base.{◌≡◌, refl, String, Bool, true, false, [], string_eq}
use tendermint_testing.Base.GoMap.{lookup, insert}
use tendermint_testing.Types.Replicas.{Replica, ReplicaStore, new_replica_store, add, num_ready}
use tendermint_testing.Types.Replicas.Invariant.{IsValid, new_replica_store-IsValid, add-IsValid}
use tendermint_testing.Types.Dag.History.{IsComplete}

abbrev pub replica : String → Bool → Replica
replica id ready = record { id = id; ready = ready; info = []; addr = "localhost"; index = 0 }

abbrev pub pair : ReplicaStore
pair = add (add (new_replica_store 2) (replica "a" true)) (replica "b" false)

pub pair-IsValid : IsValid pair
pair-IsValid =
    add-IsValid (add (new_replica_store 2) (replica "a" true)) (replica "b" false)
      (add-IsValid (new_replica_store 2) (replica "a" true) (new_replica_store-IsValid 2))

pub pair-IsComplete : IsComplete pair
unfolding add new_replica_store lookup insert
pair-IsComplete = record { valid = pair-IsValid; complete = refl }

one_ready : num_ready pair ≡ 1
unfolding num_ready add new_replica_store lookup insert
one_ready = refl
