-- ===== src/Types/ReplicaLogs/Order.antt =====
-- A replica's logs stay in the order of their timestamps.
use tendermint_testing.Base.{
  ℕ, zero, suc, ◌≡◌, ◌≢◌, ◌≤◌, refl, String, true, false, List, [], ◌∷◌, ◌++◌, Option, none, some,
  arith, sym, inl, inr, All, All-append, All-get_elem?, subst, Bool-cases, Option-cases, length,
  take, drop, All-take, All-drop, take-drop, drop_all, get_elem?, get_elem?_total, string_eq,
}
use tendermint_testing.Base.GoMap.{lookup, lookup-insert_self, lookup-insert_ne}
use tendermint_testing.Base.Int.{ℤ, pos, negsuc, ltb_ℤ, leb_ℤ}
use tendermint_testing.Types.ReplicaLogs.{ReplicaLog, ReplicaLogStore, find_place, insert_log, add}

-- a is not later than b.
abbrev pub NotAfter : ReplicaLog → ReplicaLog → Type 0
NotAfter a b = leb_ℤ a.timestamp b.timestamp ≡ true

abbrev pub Before : ReplicaLog → ReplicaLog → Type 0
Before a b = ltb_ℤ a.timestamp b.timestamp ≡ true

abbrev pub IsSorted : List ReplicaLog → Type 0
IsSorted [] = Unit
IsSorted (l ∷ ls) = All (λ m. NotAfter l m) ls × IsSorted ls

le_lt_trans : (a b c : ℤ) → leb_ℤ a b ≡ true → ltb_ℤ b c ≡ true → ltb_ℤ a c ≡ true
le_lt_trans (pos a) (pos b) (pos c) h k = ground arith
le_lt_trans (negsuc a) (pos b) (pos c) h k = ground arith
le_lt_trans (negsuc a) (negsuc b) (pos c) h k = ground arith
le_lt_trans (pos a) (pos b) (negsuc c) h k = cc
le_lt_trans (pos a) (negsuc b) c h k = cc
le_lt_trans (negsuc a) (pos b) (negsuc c) h k = cc
le_lt_trans (negsuc a) (negsuc b) (negsuc c) h k = ground arith

le_of_lt : (a b : ℤ) → ltb_ℤ a b ≡ true → leb_ℤ a b ≡ true
le_of_lt (pos a) (pos b) h = ground arith
le_of_lt (pos a) (negsuc b) h = cc
le_of_lt (negsuc a) (pos b) h = refl
le_of_lt (negsuc a) (negsuc b) h = ground arith

not_lt : (a b : ℤ) → ltb_ℤ a b ≡ false → leb_ℤ b a ≡ true
not_lt (pos a) (pos b) h = ground arith
not_lt (pos a) (negsuc b) h = refl
not_lt (negsuc a) (pos b) h = cc
not_lt (negsuc a) (negsuc b) h = ground arith

-- In a sorted list, what stands up to a place that is earlier than the log is earlier too.
earlier_up_to :
    (l : ReplicaLog) (logs : List ReplicaLog) (n : ℕ) {m : ReplicaLog}
    → IsSorted logs
    → get_elem? logs n ≡ some m
    → Before m l
    → All (λ x. Before x l) (take (suc n) logs)
earlier_up_to l [] n h e b = absurd (cc)
earlier_up_to l (x ∷ xs) zero {m = m} h e b =
    (let q : m ≡ x = cc in subst (λ y. Before y l) q b, tt)
earlier_up_to l (x ∷ xs) (suc n) {m = m} h e b = (
  le_lt_trans x.timestamp m.timestamp l.timestamp (All-get_elem? (λ y. NotAfter x y) xs n h.0 e) b,
  earlier_up_to l xs n h.1 e b,
)

drop_step {ℓ} :
    {A : Type ℓ} (xs : List A) (n : ℕ) {x : A}
    → get_elem? xs n ≡ some x
    → drop n xs ≡ x ∷ drop (suc n) xs
drop_step [] n h = cc
drop_step (y ∷ xs) zero h = cc
drop_step (y ∷ xs) (suc n) h = drop_step xs n h

-- The place that the loop finds parts the earlier logs from the others.
find_place_parts :
    (logs : List ReplicaLog) (l : ReplicaLog) (n : ℕ)
    → IsSorted logs
    → n ≤ length logs
    → All (λ x. NotAfter l x) (drop n logs)
    → All (λ x. Before x l) (take (find_place logs l n) logs)
      × All (λ x. NotAfter l x) (drop (find_place logs l n) logs)
unfolding find_place
find_place_parts logs l zero h b late = (tt, late)
find_place_parts logs l (suc n) h b late =
    let (m, e) = get_elem?_total logs n (omega arith) in
    elim (Bool-cases (ltb_ℤ m.timestamp l.timestamp)) [
      | inl earlier ↦ rw (e, earlier) (earlier_up_to l logs n h e earlier, late)
      | inr other ↦
          rw (e, other)
            (find_place_parts logs l n h (omega arith)
              (rw (drop_step logs n e) (not_lt m.timestamp l.timestamp other, late)))
    ]

insert-IsSorted :
    (p : ℕ) (logs : List ReplicaLog) (l : ReplicaLog)
    → IsSorted logs
    → All (λ x. Before x l) (take p logs)
    → All (λ x. NotAfter l x) (drop p logs)
    → IsSorted (take p logs ++ l ∷ drop p logs)
insert-IsSorted zero logs l h before after = (after, h)
insert-IsSorted (suc p) [] l h before after = (tt, tt)
insert-IsSorted (suc p) (x ∷ xs) l h before after = (
  All-append (λ y. NotAfter x y) (take p xs) (l ∷ drop p xs) (All-take _ p xs h.0)
      (le_of_lt x.timestamp l.timestamp before.0, All-drop _ p xs h.0),
  insert-IsSorted p xs l h.1 before.1 after,
)

-- What Add makes of the logs of one replica, in terms of two parts of them: the new log stands
-- after the earlier ones and before those that are not.
insert_log_parts :
    (logs : List ReplicaLog) (l : ReplicaLog)
    → IsSorted logs
    → IsSorted (insert_log logs l)
      × ((before : List ReplicaLog) × (after : List ReplicaLog) × (logs ≡ before ++ after)
          × (insert_log logs l ≡ before ++ l ∷ after)
          × All (λ x. Before x l) before
          × All (λ x. NotAfter l x) after)
unfolding insert_log
insert_log_parts logs l h =
    let p : ℕ = find_place logs l (length logs) in
    let (before, after) =
      find_place_parts logs l (length logs) h (omega arith) (rw (drop_all logs) tt) in
    (
      insert-IsSorted p logs l h before after,
      (take p logs, drop p logs, sym (take-drop p logs), refl, before, after),
    )

abbrev pub or_empty : Option (List ReplicaLog) → List ReplicaLog
or_empty none = []
or_empty (some logs) = logs

-- The logs that the store has of a replica.
abbrev pub logs_of : String → ReplicaLogStore → List ReplicaLog
logs_of id store = or_empty (lookup id store)

module _ (store : ReplicaLogStore) (l : ReplicaLog) where
  add_other : (id : String) → l.replica ≢ id → lookup id (add store l) ≡ lookup id store
  unfolding add
  add_other id ne = elim (Option-cases (lookup l.replica store)) [
    | inl e ↦ rw (e, add) (lookup-insert_ne l.replica id (l ∷ []) store ne)
    | inr (logs, e) ↦ rw (e, add) (lookup-insert_ne l.replica id (insert_log logs l) store ne)
  ]

  add_self : logs_of l.replica (add store l) ≡ insert_log (logs_of l.replica store) l
  unfolding add insert_log find_place
  add_self = elim (Option-cases (lookup l.replica store)) [
    | inl e ↦ rw (e, add, lookup-insert_self l.replica (l ∷ []) store)
    | inr (logs, e) ↦ rw (e, add, lookup-insert_self l.replica (insert_log logs l) store)
  ]

  -- Where the logs of its replica are in the order of their timestamps, Add keeps them so: it puts
  -- the log after all the earlier ones and before all that are not earlier, keeps the others in
  -- their order, and changes no other replica's logs.
  pub add-IsSorted :
      IsSorted (logs_of l.replica store)
      → IsSorted (logs_of l.replica (add store l))
        × ((before : List ReplicaLog) × (after : List ReplicaLog) × (logs_of l.replica store
              ≡ before ++ after)
            × (logs_of l.replica (add store l) ≡ before ++ l ∷ after)
            × All (λ x. Before x l) before
            × All (λ x. NotAfter l x) after)
        × ((id : String) → l.replica ≢ id → lookup id (add store l) ≡ lookup id store)
  add-IsSorted h =
      let (sorted, parts) = insert_log_parts (logs_of l.replica store) l h in
      (rw add_self sorted, rw add_self parts, add_other)
