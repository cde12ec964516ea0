-- ===== src/Examples/Votes.antt =====
-- The messages of the Tendermint test cases (tendermint/tests/util/messages.go) with small codecs.
use tendermint_testing.Base.{
  ℕ, ◌≡◌, ◌⊎◌, refl, String, Bool, true, false, ◌&&◌, List, [], ◌∷◌, length, Option, none, some,
  arith, if◌then◌else◌, ◌==◌, string_eq, nat_eq, nat_beq, Bool-cases, inl, inr,
}
use text.Mathlib.TextEquality.{eq_iff}
use tendermint_testing.Base.GoMap.{lookup}
use tendermint_testing.Base.Int.{pos}
use tendermint_testing.Types.Replicas as Replicas
use tendermint_testing.Types.Replicas.{Replica}
use tendermint_testing.Tendermint.Messages.{
  TMessage, Sum, new_round_step, vote, prevote, prevote_type, new_round_step_type, is_foreign,
  parse, is_vote,
}
use tendermint_testing.Tendermint.Messages.Typed.{IsTyped, IsReadable, parse_lem}
use tendermint_testing.Tendermint.Change.{
  Tendermint, done, failed, invalid_vote, cannot_sign, get_priv_key, get_chain_id, change_vote,
  marshal,
}
use tendermint_testing.Tendermint.Change.Signed.{IsSound, IsChanged, change_vote_lem}
use tendermint_testing.Tendermint.Change.Encoding.{ReadsJson, ReadsProto, parse-marshal}

-- Of contents, only a step of natural numbers has a code.
abbrev marshal_sum : Sum ℕ ℕ → Option (List ℕ)
marshal_sum (new_round_step (pos h) (pos r)) = some (h ∷ r ∷ [])
marshal_sum _ = none

unmarshal : List ℕ → Option (Sum ℕ ℕ)
unmarshal (h ∷ r ∷ []) = some (new_round_step (pos h) (pos r))
unmarshal _ = none

-- Of messages, only those from a to b on channel 32.
abbrev has_code : TMessage ℕ ℕ → Bool
has_code t = t.channel_id == 32 && (t.from == "a" && t.to == "b")

abbrev encode : TMessage ℕ ℕ → Option (List ℕ)
encode t = if has_code t then some t.msg_bytes else none

abbrev decode : List ℕ → Option (TMessage ℕ ℕ)
decode bytes =
    some (record {
      channel_id = 32;
      msg_bytes = bytes;
      from = "a";
      to = "b";
      type = "";
      content = none;
    })

abbrev pub tendermint : Tendermint ℕ ℕ ℕ ℕ
tendermint = record {
  parse_key = λ s. some 1;
  address = λ k. "key";
  sign = λ k bytes. some (k ∷ []);
  block_id_from_proto = some;
  nil_block_id = 0;
  hash_string = λ b. "";
  vote_to_proto = λ v. v;
  vote_sign_bytes = λ chain v. v.block_id ∷ [];
  proposal_from_proto = some;
  proposal_to_proto = λ p. p;
  proposal_sign_bytes = λ chain p. p.block_id ∷ [];
  add_time = λ m d. m;
  marshal = marshal_sum;
  encode = encode;
}

abbrev verify : String → List ℕ → List ℕ → Bool
verify addr bytes sig = nat_beq (length sig) 1

tendermint-IsSound : IsSound tendermint verify
tendermint-IsSound = record {
  type = λ v. refl;
  height = λ v. refl;
  round = λ v. refl;
  validator = λ v. refl;
  signature = λ v. refl;
  block_id = λ v. refl;
  unsigned = λ chain v sig. refl;
  verifies = λ k bytes sig h. let is : sig ≡ k ∷ [] = cc in rw is refl;
}

abbrev replica : Replica
replica = record {
  id = "a";
  ready = true;
  info = ("privkey", Replicas.text "k") ∷ ("chain_id", Replicas.text "chain") ∷ [];
  addr = "";
  index = 0;
}

abbrev pub prevote_of_a : TMessage ℕ ℕ
prevote_of_a = record {
  channel_id = 34;
  msg_bytes = [];
  from = "a";
  to = "b";
  type = prevote_type;
  content = some (
      vote (
        some (record {
          type = prevote;
          height = pos 1;
          round = pos 0;
          block_id = 7;
          timestamp = 0;
          validator_address = "key";
          validator_index = pos 0;
          signature = [];
        })));
}

has_key : get_priv_key tendermint replica ≡ some 1
unfolding get_priv_key lookup
has_key = refl

has_chain : get_chain_id replica ≡ done "chain"
unfolding get_chain_id lookup
has_chain = refl

change_vote_lem_example :
    (is_vote prevote_of_a ≡ false
      → change_vote tendermint replica prevote_of_a 0 ≡ failed invalid_vote)
    × (is_vote prevote_of_a ≡ true
        → (change_vote tendermint replica prevote_of_a 0 ≡ failed cannot_sign)
          ⊎ ((t' : TMessage ℕ ℕ) × (change_vote tendermint replica prevote_of_a 0 ≡ done t')
              × IsChanged tendermint verify 1 "chain" 0 prevote_of_a t'))
change_vote_lem_example =
    change_vote_lem tendermint verify replica prevote_of_a 0 1 "chain" tendermint-IsSound refl
      has_key has_chain

parse_lem_example :
    (decode (1 ∷ 0 ∷ []) ≡ none → parse decode unmarshal (1 ∷ 0 ∷ []) ≡ some none)
    × ((t : TMessage ℕ ℕ)
        → decode (1 ∷ 0 ∷ []) ≡ some t
        → t.content ≡ none
        → ((t' : TMessage ℕ ℕ) × (parse decode unmarshal (1 ∷ 0 ∷ []) ≡ some (some t'))
            × IsTyped t'
            × IsReadable some t'
            × (t'.from ≡ t.from)
            × (t'.to ≡ t.to))
          ⊎ ((parse decode unmarshal (1 ∷ 0 ∷ []) ≡ none)
              × (is_foreign t.channel_id ≡ false)
              × (unmarshal t.msg_bytes ≡ some (vote none))))
parse_lem_example = parse_lem some decode unmarshal (1 ∷ 0 ∷ [])

json : ReadsJson tendermint decode
json t bytes h = elim (Bool-cases (has_code t)) [
  | inr no_code ↦ absurd (let gone : none ≡ some bytes = rw no_code at h in cc)
  | inl code ↦
      let is : t.msg_bytes ≡ bytes = let h' : some t.msg_bytes ≡ some bytes = rw code at h in cc in
      let channel : t.channel_id ≡ 32 = (nat_eq.same_iff t.channel_id 32).0 (ground arith) in
      let from : t.from ≡ "a" = (eq_iff t.from "a").0 (ground arith) in
      let to : t.to ≡ "b" = (eq_iff t.to "b").0 (ground arith) in rw (channel, from, to, is) refl
]

proto : ReadsProto tendermint unmarshal
unfolding unmarshal
proto (new_round_step (pos h) (pos r)) bytes q = let is : bytes ≡ h ∷ r ∷ [] = cc in rw is refl
proto s bytes q = absurd (cc)

abbrev step : List ℕ → TMessage ℕ ℕ
step bytes = record {
  channel_id = 32;
  msg_bytes = bytes;
  from = "a";
  to = "b";
  type = new_round_step_type;
  content = some (new_round_step (pos 1) (pos 0));
}

step_made : marshal tendermint (step []) ≡ some (step (1 ∷ 0 ∷ []), 1 ∷ 0 ∷ [])
unfolding marshal
step_made = refl

parse-marshal_example :
    (parse decode unmarshal (1 ∷ 0 ∷ []) ≡ some (some (step (1 ∷ 0 ∷ []))))
    × ((step (1 ∷ 0 ∷ [])).content ≡ (step []).content)
    × ((step (1 ∷ 0 ∷ [])).type ≡ (step []).type)
    × (tendermint.marshal (new_round_step (pos 1) (pos 0)) ≡ some (1 ∷ 0 ∷ []))
parse-marshal_example =
    parse-marshal tendermint decode unmarshal (step []) (step (1 ∷ 0 ∷ []))
      (new_round_step (pos 1) (pos 0)) (1 ∷ 0 ∷ []) json proto refl refl refl step_made
