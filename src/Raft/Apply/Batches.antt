-- ===== src/Raft/Apply/Batches.antt =====
-- The batches of a log that the Raft library hands over, and their indices.
use tendermint_testing.Base.{
  ℕ, suc, ◌+◌, ◌≤◌, ◌≡◌, refl, List, [], ◌∷◌, some, arith, drop, take, length, get_elem?,
  get_elem?-drop, get_elem?-take, length-drop, length-take,
}
use tendermint_testing.Raft.Library.{Entry}
use tendermint_testing.Raft.Apply.Replay.{last_index}

-- The entries of a log count up from 1.
abbrev pub IsLog : List Entry → Type 0
IsLog log = (i : ℕ) (e : Entry) → get_elem? log i ≡ some e → e.index ≡ suc i

-- The batch of `count` entries behind the first `from`.
abbrev pub segment : List Entry → ℕ × ℕ → List Entry
segment log (from, count) = take count (drop from log)

-- A batch that leaves no gap behind the commit index, and reaches it.
abbrev pub Fits : List Entry → ℕ → ℕ × ℕ → Type 0
Fits log commit (from, count) =
    (from ≤ commit) × (commit ≤ from + count) × (from + count ≤ length log)

abbrev pub Continues : List Entry → ℕ → List (ℕ × ℕ) → Type 0
Continues log commit [] = Unit
Continues log commit (b ∷ bs) = Fits log commit b × Continues log (b.0 + b.1) bs

abbrev pub end_of : ℕ → List (ℕ × ℕ) → ℕ
end_of commit [] = commit
end_of commit (b ∷ bs) = end_of (b.0 + b.1) bs

pub end_of-le :
    (log : List Entry) (commit : ℕ) (bs : List (ℕ × ℕ))
    → Continues log commit bs
    → commit ≤ end_of commit bs
end_of-le log commit [] h = omega arith
end_of-le log commit (b ∷ bs) h =
    let later = end_of-le log (b.0 + b.1) bs h.1 in omega (arith, h.0.1)

-- Entries that count up from the base end at it and their number.
last_index_lem :
    (base : ℕ) (es : List Entry)
    → ((i : ℕ) (e : Entry) → get_elem? es i ≡ some e → e.index ≡ base + suc i)
    → last_index base es ≡ base + length es
unfolding last_index
last_index_lem base [] h = omega arith
last_index_lem base (e ∷ es) h =
    let first : e.index ≡ base + 1 = h 0 e refl in
    let later = last_index_lem e.index es (λ i x q. let y = h (suc i) x q in omega arith) in
    omega arith

module _ (log : List Entry) (is_log : IsLog log) (from d count : ℕ) where
  abbrev beyond : List Entry
  beyond = drop d (segment log (from, count))

  beyond_index : (i : ℕ) (e : Entry) → get_elem? beyond i ≡ some e → e.index ≡ (from + d) + suc i
  beyond_index i e h =
      let in_taken = rw (get_elem?-drop d (take count (drop from log)) i) at h in
      let in_dropped = get_elem?-take count (drop from log) (d + i) in_taken in
      let in_log = rw (get_elem?-drop from log (d + i)) at in_dropped in
      let there = is_log (from + (d + i)) e in_log in omega arith

  pub last_index-beyond :
      d ≤ count → from + count ≤ length log → last_index (from + d) beyond ≡ from + count
  last_index-beyond h k =
      let dropped = length-drop from log (omega arith) in
      let taken = length-take count (drop from log) (omega arith) in
      let left = length-drop d (take count (drop from log)) (omega arith) in
      omega (arith, last_index_lem (from + d) beyond beyond_index)

module _ (log : List Entry) (is_log : IsLog log) (from count : ℕ) where
  pub first_index :
      {first : Entry} {rest : List Entry}
      → segment log (from, count) ≡ first ∷ rest
      → first.index ≡ suc from
  first_index {first} e =
      let head : get_elem? (segment log (from, count)) 0 ≡ some first = rw e refl in
      let there = rw (get_elem?-drop from log 0) at (get_elem?-take count (drop from log) 0 head) in
      let counted = is_log (from + 0) first there in omega arith

  pub length-segment : from + count ≤ length log → length (segment log (from, count)) ≡ count
  length-segment h =
      let dropped = length-drop from log (omega arith) in
      length-take count (drop from log) (omega arith)
