-- ===== src/Testlib/Filters/Cascade.antt =====
-- Which filter decides about an event.
use tendermint_testing.Base.{
  ◌≡◌, refl, sym, ◌∙◌, ap, true, false, List, [], ◌∷◌, ◌++◌, Option, none, some, arith, Bool-cases,
  inl, inr, string_eq,
}
use mathlib.Core.List.{append-nil}
use tendermint_testing.Types.Event.{Event}
use tendermint_testing.Testlib.Context.{Context}
use tendermint_testing.Testlib.Actions.{FilterFunc}
use tendermint_testing.Testlib.Filters.{FilterSet, cascade, handle_event}

module _ {P : Type 0} where
  -- The context after filters that all let the event pass.
  abbrev pub passed : List (FilterFunc P) → Event → Context P → Option (Context P)
  passed [] e c = some c
  passed (h ∷ hs) e c =
      let ((ms, ok), c') = h e c in elim ok [ true ↦ none | false ↦ passed hs e c' ]

  cascade-passed :
      (pre rest : List (FilterFunc P)) (d : FilterFunc P) (e : Event) (c : Context P)
      {c' : Context P}
      → passed pre e c ≡ some c'
      → cascade (pre ++ rest) d e c ≡ cascade rest d e c'
  unfolding cascade
  cascade-passed [] rest d e c h = ap (cascade rest d e) (ground arith)
  cascade-passed (f ∷ pre) rest d e c {c'} h = elim (Bool-cases (f e c).0.1) [
    | inl ok ↦ absurd (let gone : none ≡ some c' = rw ok at h in cc)
    | inr pass ↦ rw pass (cascade-passed pre rest d e (f e c).1 (rw pass at h))
  ]

  cascade_nil :
      (d : FilterFunc P) (e : Event) (c : Context P) → cascade [] d e c ≡ ((d e c).0.0, (d e c).1)
  unfolding cascade
  cascade_nil d e c = refl

  cascade_hit :
      (h : FilterFunc P) (post : List (FilterFunc P)) (d : FilterFunc P) (e : Event) (c : Context P)
      → (h e c).0.1 ≡ true
      → cascade (h ∷ post) d e c ≡ ((h e c).0.0, (h e c).1)
  unfolding cascade
  cascade_hit h post d e c ok = rw (ok, cascade)

  -- The first filter that handles an event decides: the messages are its own, in the context that the
  -- filters before it left, and those behind it and the default are not called. Where every filter lets
  -- the event pass, the default's messages are delivered.
  pub handle_event-first :
      (f : FilterSet P) (pre post : List (FilterFunc P)) (h : FilterFunc P) (e : Event)
      (c : Context P) {c' : Context P}
      → passed pre e c ≡ some c'
      → (f.filters ≡ pre ++ h ∷ post
          → (h e c').0.1 ≡ true
          → handle_event f e c ≡ ((h e c').0.0, (h e c').1))
        × (f.filters ≡ pre
            → handle_event f e c ≡ ((f.default_filter e c').0.0, (f.default_filter e c').1))
  unfolding handle_event
  handle_event-first f pre post h e c {c'} p = (
    λ at_filters ok.
        ap (λ fs. cascade fs f.default_filter e c) at_filters
        ∙ cascade-passed pre (h ∷ post) f.default_filter e c p
        ∙ cascade_hit h post f.default_filter e c' ok,
    λ at_filters.
        ap (λ fs. cascade fs f.default_filter e c) at_filters
        ∙ ap (λ fs. cascade fs f.default_filter e c) (sym (append-nil pre))
        ∙ cascade-passed pre [] f.default_filter e c p
        ∙ cascade_nil f.default_filter e c',
  )
