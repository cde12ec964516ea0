-- ===== src/Types/Messages.antt =====
-- netrix/types/messages.go: intercepted messages and the store that keeps them by identifier.
use tendermint_testing.Base.{
  ℕ, suc, ◌+◌, ◌≡◌, ◌⊎◌, inl, inr, refl, String, Bool, List, [], map, Option, none, some, arith,
  Option-cases, if◌then◌else◌, length, ◌==◌, string_eq,
}
use text.Mathlib.TextEquality.{eq_iff}
use tendermint_testing.Base.GoMap.{
  GoMap, lookup, insert, delete, contains, lookup-insert, lookup-delete, length-insert, UniqueKeys,
  length-delete,
}

-- A parser of messages and its results belong to the replicas' clients: `Parsed` is their type.
pub record Message (Parsed : Type 0) : Type 0 where
  pub from : String
  pub to : String
  pub content : Option (List ℕ)
  pub type : String
  pub id : String
  pub intercept : Bool
  pub parsed : Option Parsed
  pub repr : String

pub data ParseError : Type 0 where
  bad_parser no_data : ParseError
  parse_error : String → ParseError

-- A MessageParser: Parse, with the text of its error, and String of its results.
pub record Parser (Parsed : Type 0) : Type 0 where
  pub parse : List ℕ → Parsed ⊎ String
  pub to_string : Parsed → String

abbrev pub MessageStore : Type 0 → Type 0
MessageStore Parsed = GoMap String (Message Parsed)

module _ {Parsed : Type 0} where
  -- A nil parser is `none`, and nil data is the absent content.
  unfoldable pub clone : Message Parsed → Message Parsed
  clone m = record m { parsed = none }

  abbrev parsed_as :
      Message Parsed → (Parsed → String) → Parsed ⊎ String → Message Parsed ⊎ ParseError
  parsed_as m to_string (inl p) = inl (record m { parsed = some p; repr = to_string p })
  parsed_as m to_string (inr e) = inr (parse_error e)

  unfoldable pub parse : Message Parsed → Option (Parser Parsed) → Message Parsed ⊎ ParseError
  parse m none = inr bad_parser
  parse m (some parser) = elim m.content [
    | none ↦ inr no_data
    | some bytes ↦ parsed_as m parser.to_string (parser.parse bytes)
  ]

  unfoldable pub get : MessageStore Parsed → String → Option (Message Parsed)
  get s id = lookup id s

  unfoldable pub exists : MessageStore Parsed → String → Bool
  exists s id = contains id s

  -- Add returns the message that had the identifier, or nil.
  unfoldable pub add :
      MessageStore Parsed → Message Parsed → MessageStore Parsed × Option (Message Parsed)
  add s m = let old = lookup m.id s in (insert m.id m s, old)

  -- Iter lists the values in the order that the iteration takes.
  unfoldable pub iter : MessageStore Parsed → List (Message Parsed)
  iter s = map (λ (p : String × Message Parsed). p.1) s

  unfoldable pub remove :
      MessageStore Parsed → String → MessageStore Parsed × Option (Message Parsed)
  remove s id = elim (lookup id s) [ none ↦ (s, none) | some m ↦ (delete id s, some m) ]

  unfoldable pub size : MessageStore Parsed → ℕ
  size s = length s

  unfoldable pub remove_all : MessageStore Parsed → MessageStore Parsed
  remove_all s = []

  -- Add puts the message under its identifier, changes no other, and returns what it replaced; the
  -- store grows by one unless it replaced something.
  pub add_lem :
      (s : MessageStore Parsed) (m : Message Parsed)
      → ((id : String) → get (add s m).0 id ≡ (if m.id == id then some m else get s id))
        × ((add s m).1 ≡ get s m.id)
        × (size (add s m).0 ≡ (if exists s m.id then size s else suc (size s)))
  unfolding add get size exists
  add_lem s m = (λ id. lookup-insert m.id id m s, refl, length-insert m.id m s)

  -- Remove takes away the message of the identifier and no other, and returns it; a store with no
  -- identifier twice shrinks by one if it was there.
  pub remove_lem :
      (s : MessageStore Parsed) (key : String)
      → UniqueKeys s
      → ((id : String) → get (remove s key).0 id ≡ (if key == id then none else get s id))
        × ((remove s key).1 ≡ get s key)
        × (size (remove s key).0 + (if exists s key then 1 else 0) ≡ size s)
  unfolding remove get size exists
  remove_lem s key h = elim (Option-cases (lookup key s)) [
    | inl e ↦ rw (e, remove) (λ id. ground (arith, eq_iff key id), refl, omega arith)
    | inr (m, e) ↦
        rw (e, remove) (λ id. lookup-delete key id s, refl, rw e at (length-delete key s h))
  ]
