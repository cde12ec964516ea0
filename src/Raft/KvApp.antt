-- ===== src/Raft/KvApp.antt =====
-- raft/raft/kv.go: the key-value store that the Raft example replicates. The encodings (gob for a
-- write, JSON for the whole map) are arguments.
use tendermint_testing.Base.{ℕ, String, Bool, true, false, List, [], Option, none, some, string_eq}
use tendermint_testing.Base.GoMap.{GoMap, lookup, insert}

pub record Kv : Type 0 where
  pub key : String
  pub val : String

-- kvApp: its map.
abbrev pub KvApp : Type 0
KvApp = GoMap String String

unfoldable pub new_kv_app : KvApp
new_kv_app = []

unfoldable pub get : KvApp → String → Option String
get a key = lookup key a

-- The write that was decoded, or the failure.
abbrev pub set_decoded : KvApp → Option Kv → KvApp × Bool
set_decoded a none = (a, false)
set_decoded a (some e) = (insert e.key e.val a, true)

-- `decode` is gob's.
unfoldable pub set : (List ℕ → Option Kv) → KvApp → List ℕ → KvApp × Bool
set decode a bytes = set_decoded a (decode bytes)

-- `marshal` and `unmarshal` are encoding/json's.
unfoldable pub snapshot : (GoMap String String → Option (List ℕ)) → KvApp → Option (List ℕ)
snapshot marshal a = marshal a

-- `none` is the error of the decoder: the map stays.
unfoldable pub restore : (List ℕ → Option (GoMap String String)) → KvApp → List ℕ → Option KvApp
restore unmarshal a bytes = unmarshal bytes
