-- ===== src/Types/Timeouts/Firing.antt =====
-- The timeout store: without a reset every timer that fires becomes ready; after one an old timer
-- takes the place of a new one.
use tendermint_testing.Base.{
  ℕ, zero, suc, ◌+◌, ◌≡◌, refl, ap, inl, inr, String, false, List, [], ◌∷◌, ◌++◌, none, some, arith,
  if◌then◌else◌, ◌==◌, string_eq, Option-cases,
}
use text.Mathlib.TextEquality.{eq_iff}
use tendermint_testing.Base.GoMap.{lookup, insert, delete, contains, lookup-insert, lookup-delete}
use tendermint_testing.Types.Event.{ReplicaTimeout}
use tendermint_testing.Types.Timeouts.{
  TimeoutStore, new_timeout_store, add_timeout, take_at, fire, poll, poll_with, reset, to_dispatch,
  key_of,
}

-- How many timeouts of a key there are.
abbrev pub count : String → List ReplicaTimeout → ℕ
count k [] = 0
count k (t ∷ ts) = let rest = count k ts in if key_of t == k then suc rest else rest

count-append :
    (k : String) (ts us : List ReplicaTimeout) → count k (ts ++ us) ≡ count k ts + count k us
count-append k [] us = omega arith
count-append k (t ∷ ts) us = ground (arith, count-append k ts us)

count-take_at :
    (k : String) (i : ℕ) (ts : List ReplicaTimeout) {t : ReplicaTimeout}
    {rest : List ReplicaTimeout}
    → take_at i ts ≡ some (t, rest)
    → count k ts ≡ count k (t ∷ rest)
count-take_at k i [] h = absurd (cc)
count-take_at k zero (u ∷ ts) h = ground arith
count-take_at k (suc i) (u ∷ ts) {t} {rest} h = elim (Option-cases (take_at i ts)) [
  | inl e ↦ absurd (let gone : none ≡ some (t, rest) = rw e at h in cc)
  | inr ((v, us), e) ↦
      let found : some (v, u ∷ us) ≡ some (t, rest) = rw e at h in
      ground (arith, count-take_at k i ts e)
]

-- Every timeout of the map has one timer, waiting or in the channel, and no other timer is about.
pub IsTimed : TimeoutStore → Type 0
IsTimed s =
    (k : String) → count k s.waiting + count k s.out_chan ≡ (if contains k s.timeouts then 1 else 0)

pub new_timeout_store-IsTimed : IsTimed new_timeout_store
unfolding IsTimed new_timeout_store lookup
new_timeout_store-IsTimed k = refl

add_timeout-IsTimed :
    (s s' : TimeoutStore) (t : ReplicaTimeout) → IsTimed s → add_timeout s t ≡ some s' → IsTimed s'
unfolding IsTimed add_timeout
add_timeout-IsTimed s s' t h eq k = ground (
  arith,
  h k,
  count-append k s.waiting (t ∷ []),
  lookup-insert (key_of t) k t s.timeouts,
  eq_iff (key_of t) k,
)

fire-IsTimed : (s : TimeoutStore) (i : ℕ) → IsTimed s → IsTimed (fire s i)
unfolding IsTimed fire
fire-IsTimed s i h k = elim (Option-cases (take_at i s.waiting)) [
  | inl e ↦ ground (arith, h k)
  | inr ((t, rest), e) ↦
      ground (arith, h k, count-take_at k i s.waiting e, count-append k s.out_chan (t ∷ []))
]

poll_with-IsTimed :
    (s : TimeoutStore) (ts : List ReplicaTimeout)
    → s.out_chan ≡ ts
    → IsTimed s
    → IsTimed (poll_with s ts)
unfolding IsTimed
poll_with-IsTimed s [] e h k = h k
poll_with-IsTimed s (t ∷ ts) e h k = ground (
  arith,
  h k,
  h (key_of t),
  ap (count k) e,
  ap (count (key_of t)) e,
  lookup-delete (key_of t) k s.timeouts,
  eq_iff (key_of t) k,
  eq_iff (key_of t) (key_of t),
)

-- Where every timeout of the map has exactly one timer, waiting or in the channel, and there is no
-- other timer, this is so again after a timeout is added, a timer runs out, the poll loop
-- receives, and the ready timeouts are handed over.
pub steps-IsTimed :
    (s : TimeoutStore)
    → IsTimed s
    → ((t : ReplicaTimeout) (s' : TimeoutStore) → add_timeout s t ≡ some s' → IsTimed s')
      × ((i : ℕ) → IsTimed (fire s i))
      × IsTimed (poll s)
      × IsTimed (to_dispatch s).0
unfolding poll to_dispatch IsTimed
steps-IsTimed s h = (
  λ t s' e. add_timeout-IsTimed s s' t h e,
  λ i. fire-IsTimed s i h,
  poll_with-IsTimed s s.out_chan refl h,
  h,
)

-- Where every timeout of the map has exactly one timer and there is no other, a timeout that the
-- poll loop receives becomes ready and leaves the map.
pub poll-ready :
    (s : TimeoutStore) (t : ReplicaTimeout) (rest : List ReplicaTimeout)
    → IsTimed s
    → s.out_chan ≡ t ∷ rest
    → ((poll s).ready ≡ s.ready ++ t ∷ []) × (contains (key_of t) (poll s).timeouts ≡ false)
unfolding poll IsTimed
poll-ready s t rest h e = ground (
  arith,
  h (key_of t),
  ap (count (key_of t)) e,
  eq_iff (key_of t) (key_of t),
  lookup-delete (key_of t) (key_of t) s.timeouts,
)

-- A timeout is started in a new store, the store is reset, and a timeout of the same replica and
-- type is started: when the old timer runs out it is the old timeout that becomes ready, and the
-- timer of the new one, which runs out later, makes nothing ready.
pub reset_leaves_timer :
    (old fresh : ReplicaTimeout)
    → key_of old ≡ key_of fresh
    → (s1 s2 : TimeoutStore) → add_timeout new_timeout_store old ≡ some s1
    → add_timeout (reset s1) fresh ≡ some s2
    → ((poll (fire s2 0)).ready ≡ old ∷ [])
      × ((poll (fire (poll (fire s2 0)) 0)).ready ≡ old ∷ [])
      × ((poll (fire (poll (fire s2 0)) 0)).waiting ≡ [])
unfolding add_timeout new_timeout_store reset fire poll lookup insert delete
reset_leaves_timer old fresh same s1 s2 e1 e2 =
    ground (arith, eq_iff (key_of old) (key_of fresh), eq_iff (key_of fresh) (key_of old))
