-- ===== src/Types/Reports.antt =====
-- netrix/types/reports.go (testlib/reports.go is a copy): the log of important events. `none` is a
-- panic. How far a Go slice can be extended is its capacity, which the runtime chooses: it is the
-- argument `capacity`, and what lies past the length is a nil pointer.
pub mod Queries
use tendermint_testing.Base.{
  ℕ, zero, suc, ◌+◌, ◌-◌, ◌%◌, ◌≡◌, refl, String, Bool, true, false, List, [], ◌∷◌, ◌++◌, map,
  Option, none, some, if◌then◌else◌, leb, ltb, length, take, drop, replicate, ◌==◌, string_eq,
  nat_eq,
}
use tendermint_testing.Base.GoMap.{GoMap, lookup}
use tendermint_testing.Base.Int.{ℤ, pos, negsuc, int_eq}

pub record ReportLog : Type 0 where
  pub id : ℕ  -- uint64
  pub key_val : GoMap String String

-- One key of the query: a key that the log does not have passes.
abbrev pub agrees : Option String → String → Bool
agrees none v = true
agrees (some c) v = c == v

unfoldable pub matches : ReportLog → GoMap String String → Bool
matches r [] = true
matches r ((k, v) ∷ rest) = if agrees (lookup k r.key_val) v then matches r rest else false

pub record ReportStore : Type 0 where
  pub logs : List ReportLog
  pub size : ℕ  -- uint64

unfoldable pub new_report_store : ReportStore
new_report_store = record { logs = []; size = 0 }

unfoldable pub log : ReportStore → GoMap String String → ReportStore
log r key_vals = record {
  logs = r.logs ++ record { id = r.size; key_val = key_vals } ∷ [];
  size = (r.size + 1) % 18446744073709551616;
}

-- The loop of filter over the logs that are left, with the size of the result so far.
abbrev pub filter_loop : GoMap String String → ℤ → ℕ → List ReportLog → List ReportLog
filter_loop key_vals count n [] = []
filter_loop key_vals count n (l ∷ ls) =
    let hit = l ∷ filter_loop key_vals count (suc n) ls in
    let miss = filter_loop key_vals count n ls in
    if pos n == count then [] else (if matches l key_vals then hit else miss)

-- A start below 0 reads logs[-1] or the like, unless the loop ends first.
unfoldable pub filter : ReportStore → GoMap String String → ℤ → ℤ → Option (List ReportLog)
filter r key_vals (negsuc i) count = if pos 0 == count then some [] else none
filter r key_vals (pos i) count = some (filter_loop key_vals count 0 (drop i r.logs))

-- logs[from : from + count]
abbrev pub slice : ℕ → List ReportLog → ℤ → ℤ → Option (List (Option ReportLog))
slice capacity logs (pos from) (pos count) =
    if leb (from + count) capacity
    then some (
        map some (take count (drop from logs))
        ++ replicate (count - length (take count (drop from logs))) none)
    else none
slice capacity logs from count = none

abbrev pub default_count : ℤ → ℤ
default_count count = if count == negsuc 0 then pos 100 else count

abbrev pub default_from : ℤ → ℤ
default_from from = if from == negsuc 0 then pos 0 else from

abbrev pub all_found : Option (List ReportLog) → Option (List (Option ReportLog))
all_found none = none
all_found (some ls) = some (map some ls)

unfoldable pub get_logs :
    ℕ → ReportStore → GoMap String String → ℤ → ℤ → Option (List (Option ReportLog))
unfolding filter
get_logs capacity r [] count from = slice capacity r.logs (default_from from) (default_count count)
get_logs capacity r (kv ∷ kvs) count from =
    all_found (filter r (kv ∷ kvs) (default_from from) (default_count count))
