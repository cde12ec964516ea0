-- ===== src/Types/Reports/Queries.antt =====
-- What the queries return.
use tendermint_testing.Base.{
  ℕ, zero, suc, ◌+◌, ◌<◌, ◌≡◌, ◌↔◌, refl, ap, String, Bool, true, false, List, [], ◌∷◌, none, some,
  arith, if◌then◌else◌, take, drop, ◌==◌, string_eq, Bool-cases, inl, inr, ◌⊎◌, All, Option-cases,
}
use text.Mathlib.TextEquality.{eq_iff}
use tendermint_testing.Base.GoMap.{GoMap, lookup}
use tendermint_testing.Base.Int.{pos, negsuc, int_eq}
use tendermint_testing.Types.Reports.{
  ReportLog, ReportStore, agrees, matches, filter_loop, filter, get_logs,
}

-- The logs that match, in their order.
abbrev matching : GoMap String String → List ReportLog → List ReportLog
matching kvs [] = []
matching kvs (l ∷ ls) = let rest = matching kvs ls in if matches l kvs then l ∷ rest else rest

filter_loop_lem :
    (kvs : GoMap String String) (n room : ℕ) (ls : List ReportLog)
    → filter_loop kvs (pos (n + room)) n ls ≡ take room (matching kvs ls)
filter_loop_lem kvs n zero [] = refl
filter_loop_lem kvs n zero (l ∷ ls) = ground arith
filter_loop_lem kvs n (suc room) [] = refl
filter_loop_lem kvs n (suc room) (l ∷ ls) =
    ground (arith, filter_loop_lem kvs (suc n) room ls, filter_loop_lem kvs n (suc room) ls)

-- A query with a count of at least 0 and a start of at least 0 finds the first matching logs from
-- the start on, in their order, and no more than the count.
filter_lem :
    (r : ReportStore) (kvs : GoMap String String) (from count : ℕ)
    → filter r kvs (pos from) (pos count) ≡ some (take count (matching kvs (drop from r.logs)))
unfolding filter
filter_lem r kvs from count =
    let e : 0 + count ≡ count = omega arith in
    ap some (rw e at (filter_loop_lem kvs 0 count (drop from r.logs)))

agree_step {ℓ} :
    (m : GoMap String String) (k v : String) (rest : Bool) {R : Type ℓ}
    → (rest ≡ true) ↔ R
    → ((if agrees (lookup k m) v then rest else false) ≡ true)
      ↔ (((lookup k m ≡ none) ⊎ (lookup k m ≡ some v)) × R)
agree_step m k v rest h = elim (Option-cases (lookup k m)) [
  | inl e ↦ rw e (λ q. (inl refl, h.0 q), λ q. h.1 q.1)
  | inr (c, e) ↦ rw e (
    λ q. elim (Bool-cases (c == v)) [
      | inl same ↦ (inr (ap some ((eq_iff c v).0 same)), h.0 (rw same at q))
      | inr differ ↦ absurd (let z = rw differ at q in cc)
    ],
    λ q. ground (arith, eq_iff c v, h.1 q.1),
  )
]

-- A log matches exactly when it has no other value under any key of the query.
pub matches_iff :
    (l : ReportLog) (kvs : GoMap String String)
    → (matches l kvs ≡ true)
      ↔ All
          (λ (kv : String × String).
            (lookup kv.0 l.key_val ≡ none) ⊎ (lookup kv.0 l.key_val ≡ some kv.1))
          kvs
unfolding matches
matches_iff l [] = (λ h. tt, λ h. refl)
matches_iff l ((k, v) ∷ kvs) = agree_step l.key_val k v (matches l kvs) (matches_iff l kvs)

-- With no key and no bounds given, GetLogs panics exactly when the slice cannot be extended to 100
-- logs, however few there are.
pub get_logs_default_panics :
    (capacity : ℕ) (r : ReportStore)
    → (get_logs capacity r [] (negsuc 0) (negsuc 0) ≡ none) ↔ (capacity < 100)
unfolding get_logs
get_logs_default_panics capacity r = ground arith
