-- ===== src/Tendermint/Change/Encoding.antt =====
-- Marshal and Parse.
use tendermint_testing.Base.{
  ℕ, ◌≡◌, refl, sym, ◌∙◌, ap, false, List, Option, none, some, Option-cases, inl, inr,
}
use tendermint_testing.Tendermint.Messages.{TMessage, Sum, is_foreign, typed_as, parse}
use tendermint_testing.Tendermint.Messages.Typed.{IsTyped, type_of_content, parse_sum_typed}
use tendermint_testing.Tendermint.Change.{Tendermint, marshal, encoded, refreshed}

module _ {K I B M : Type 0} (tm : Tendermint K I B M) where
  -- encoding/json reads back what it wrote: the type and the content are not in it (their tag is "-").
  abbrev pub ReadsJson : (List ℕ → Option (TMessage I M)) → Type 0
  ReadsJson decode =
      (t : TMessage I M) (bytes : List ℕ)
      → tm.encode t ≡ some bytes
      → decode bytes ≡ some (typed_as t "" none)

  -- So does the codec of the protocol.
  abbrev pub ReadsProto : (List ℕ → Option (Sum I M)) → Type 0
  ReadsProto unmarshal =
      (s : Sum I M) (bytes : List ℕ) → tm.marshal s ≡ some bytes → unmarshal bytes ≡ some s

  abbrev with_inner : TMessage I M → List ℕ → TMessage I M
  with_inner t inner = record t { msg_bytes = inner }

  marshal_cases :
      (t t' : TMessage I M) (s : Sum I M) (bytes : List ℕ)
      → t.content ≡ some s
      → marshal tm t ≡ some (t', bytes)
      → (inner : List ℕ) × (tm.marshal s ≡ some inner)
        × (with_inner t inner ≡ t')
        × (tm.encode (with_inner t inner) ≡ some bytes)
  unfolding marshal
  marshal_cases t t' s bytes at made = elim (Option-cases (tm.marshal s)) [
    | inl q ↦ absurd (
        let gone : none ≡ some (t', bytes) =
          sym (ap (λ d. encoded tm (refreshed tm t d)) at ∙ rw q refl) ∙ made in
        cc)
    | inr (inner, q) ↦ elim (Option-cases (tm.encode (with_inner t inner))) [
      | inl p ↦ absurd (
          let gone : none ≡ some (t', bytes) =
            sym (ap (λ d. encoded tm (refreshed tm t d)) at ∙ rw (q, p) refl) ∙ made in
          cc)
      | inr (b, p) ↦
          let there : some (with_inner t inner, b) ≡ some (t', bytes) =
            sym (ap (λ d. encoded tm (refreshed tm t d)) at ∙ rw (q, p) refl) ∙ made in
          let same : b ≡ bytes = cc in (inner, q, cc, p ∙ ap some same)
    ]
  ]

  -- Where the codecs read back what they write, Parse reads back what Marshal wrote of a message of a
  -- consensus channel whose type goes with its content, which is not missing: the message with the
  -- bytes of its content, as Marshal leaves it.
  pub parse-marshal :
      (decode : List ℕ → Option (TMessage I M)) (unmarshal : List ℕ → Option (Sum I M))
      (t t' : TMessage I M) (s : Sum I M) (bytes : List ℕ)
      → ReadsJson decode
      → ReadsProto unmarshal
      → IsTyped t
      → is_foreign t.channel_id ≡ false
      → t.content ≡ some s
      → marshal tm t ≡ some (t', bytes)
      → (parse decode unmarshal bytes ≡ some (some t'))
        × (t'.content ≡ t.content)
        × (t'.type ≡ t.type)
        × (tm.marshal s ≡ some t'.msg_bytes)
  unfolding parse
  parse-marshal decode unmarshal t t' s bytes json proto typed ours at made =
      let (inner, made_inner, is, made_json) = marshal_cases t t' s bytes at made in
      let t1 : TMessage I M = with_inner t inner in
      let type : type_of_content (some s) ≡ some t.type = sym (ap type_of_content at) ∙ typed in
      let whole : typed_as t1 t.type (some s) ≡ t1 = ap (λ d. typed_as t1 t.type d) (sym at) in
      rw (sym is) (
        rw (json t1 bytes made_json, ours, proto s inner made_inner)
            (rw (parse_sum_typed (typed_as t1 "" none) (some s) type)
              (ap (λ x. some (some x)) whole)),
        refl,
        refl,
        made_inner,
      )
