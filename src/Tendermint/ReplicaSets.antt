-- ===== src/Tendermint/ReplicaSets.antt =====
-- tendermint/tests/util/replicas.go: sets of replicas.
use tendermint_testing.Base.{
  ℕ, ◌+◌, String, Bool, true, List, [], Option, none, some, map, string_eq, if◌then◌else◌,
}
use tendermint_testing.Base.GoMap.{GoMap, insert, contains}
use tendermint_testing.Types.Replicas.{Replica}

pub record ReplicaSet : Type 0 where
  pub replicas : GoMap String Replica
  pub val_addrs : GoMap String Bool
  pub size : ℕ

unfoldable pub new_replica_set : ReplicaSet
new_replica_set = record { replicas = []; val_addrs = []; size = 0 }

abbrev pub add_addr : Option String → GoMap String Bool → GoMap String Bool
add_addr none addrs = addrs
add_addr (some a) addrs = insert a true addrs

-- `val_addr` is the address of the replica's validator key, if GetPrivKey reads one: the key types are
-- Tendermint's.
unfoldable pub add : (Replica → Option String) → ReplicaSet → Replica → ReplicaSet
add val_addr r replica = if contains replica.id r.replicas then r else record r {
  val_addrs = add_addr (val_addr replica) r.val_addrs;
  replicas = insert replica.id replica r.replicas;
  size = r.size + 1;
}

unfoldable pub exists : ReplicaSet → String → Bool
exists r id = contains id r.replicas

unfoldable pub exists_val : ReplicaSet → String → Bool
exists_val r addr = contains addr r.val_addrs

-- Iter lists the identifiers in the order of the iteration.
unfoldable pub iter : ReplicaSet → List String
iter r = map (λ (p : String × Replica). p.0) r.replicas
