-- ===== src/Raft/Library.antt =====
-- What raft/raft/node.go uses of the Raft library with its storage, of the write-ahead log and of the
-- snapshots on disk. `R` is the library's node, `T` its storage, `W` the disk, `H` the hard state, `S`
-- the roles, `C` the configurations.
use tendermint_testing.Base.{ℕ, String, Bool, List, Option}
use tendermint_testing.Raft.KvApp.{Kv, KvApp}

-- The parts of the library's entries, messages and snapshots that the code reads.
pub data EntryType : Type 0 where
  normal conf_change : EntryType

pub record Entry : Type 0 where
  pub index : ℕ  -- uint64
  pub type : EntryType
  pub bytes : List ℕ

pub data ConfChangeType : Type 0 where
  add_node remove_node other_change : ConfChangeType

pub record ConfChange : Type 0 where
  pub type : ConfChangeType
  pub node_id : ℕ
  pub context : List ℕ

pub record Snapshot (C : Type 0) : Type 0 where
  pub index : ℕ
  pub term : ℕ
  pub conf_state : C
  pub bytes : List ℕ

pub record Message (C : Type 0) : Type 0 where
  pub is_snap : Bool
  pub to : ℕ
  pub snapshot : Snapshot C
  pub bytes : List ℕ

pub record Ready (H C : Type 0) : Type 0 where
  pub hard_state : H
  pub term : ℕ
  pub entries : List Entry
  pub snapshot : Snapshot C
  pub committed_entries : List Entry
  pub messages : List (Message C)

-- Load of the snapshotter, and LoadNewestAvailable.
pub data Load (C : Type 0) : Type 0 where
  load_failed no_snapshot : Load C
  loaded : Snapshot C → Load C

pub record Library (R S C H T W : Type 0) : Type 0 where
  pub tick : R → R
  pub status : R → S × ℕ
  pub role_name : S → String
  pub decimal : ℕ → String
  pub advance : R → R
  pub apply_conf_change : R → ConfChange → R × C
  pub unmarshal_conf_change : List ℕ → ConfChange
  pub is_empty_snap : Snapshot C → Bool
  pub append : T → List Entry → T
  pub apply_snapshot : T → Snapshot C → T
  pub create_snapshot : T → ℕ → C → List ℕ → Option (Snapshot C × T)
  pub compact : T → ℕ → Option T
  pub set_hard_state : T → H → T
  pub save : W → H → List Entry → W
  pub save_snap : W → Snapshot C → Option W
  pub save_wal_snapshot : W → ℕ → ℕ → C → Option W
  pub release_lock_to : W → ℕ → Option W
  pub load : W → Load C
  pub decode : List ℕ → Option Kv
  pub marshal : KvApp → Option (List ℕ)
  pub unmarshal : List ℕ → Option KvApp
  pub make_dirs : W → Option W
  pub wal_exists : W → Bool
  pub valid_snapshots : W → Option (List (ℕ × ℕ))
  pub load_newest : W → List (ℕ × ℕ) → Load C
  pub create_wal : W → Option W
  pub open_wal : W → ℕ → ℕ → Option W
  pub read_all : W → Option (H × List Entry)
  pub remove_all : W → Option W
  pub restart_node : ℕ → T → R
  pub start_node : ℕ → T → R
