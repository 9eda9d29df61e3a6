-- ===== src/Bundle/Tokens/Trees.antt =====
-- internal/bundle/model.go: `hasDuplicateObjectKey` on the tokens of a JSON value.
use ssc_init.Base.{
  ℕ, zero, suc, ◌+◌, ◌*◌, ◌≤◌, Bool, true, false, not, ◌&&◌, Option, none, some, List, [], ◌∷◌, ◌≡◌,
  refl, ◌∙◌, any, length, if◌then◌else◌, Text, text_eq, arith, ◌>>=◌,
}
use ssc_init.Bundle.Tokens.{
  Token, open_object, close_object, open_array, close_array, value, text, walk, walk_members,
  walk_items, is_finished, has_duplicate_object_key,
}

-- A JSON value: an object's members and an array's items are in a list of their own.
mutual
  pub data Json : Type 0 where
    atom : Json
    string : Text → Json
    object : Members → Json
    array : Items → Json

  pub data Members : Type 0 where
    no_members : Members
    member : Text → Json → Members → Members

  pub data Items : Type 0 where
    no_items : Items
    item : Json → Items → Items

-- The tokens of a value, in front of others.
unfoldable mutual
  pub tokens_of : Json → List Token → List Token
  tokens_of atom ts = value ∷ ts
  tokens_of (string s) ts = text s ∷ ts
  tokens_of (object ms) ts = open_object ∷ member_tokens ms ts
  tokens_of (array is) ts = open_array ∷ item_tokens is ts

  pub member_tokens : Members → List Token → List Token
  member_tokens no_members ts = close_object ∷ ts
  member_tokens (member key j ms) ts = text key ∷ tokens_of j (member_tokens ms ts)

  pub item_tokens : Items → List Token → List Token
  item_tokens no_items ts = close_array ∷ ts
  item_tokens (item j is) ts = tokens_of j (item_tokens is ts)

-- No object in the value has the same key twice.
unfoldable mutual
  pub has_distinct_keys : Json → Bool
  has_distinct_keys atom = true
  has_distinct_keys (string s) = true
  has_distinct_keys (object ms) = distinct_members [] ms
  has_distinct_keys (array is) = distinct_items is

  pub distinct_members : List Text → Members → Bool
  distinct_members seen no_members = true
  distinct_members seen (member key j ms) =
      not (any (text_eq key) seen) && has_distinct_keys j && distinct_members (key ∷ seen) ms

  pub distinct_items : Items → Bool
  distinct_items no_items = true
  distinct_items (item j is) = has_distinct_keys j && distinct_items is

-- The rounds that the walk takes.
unfoldable mutual
  pub rounds : Json → ℕ
  rounds atom = 1
  rounds (string s) = 1
  rounds (object ms) = suc (member_rounds ms)
  rounds (array is) = suc (item_rounds is)

  pub member_rounds : Members → ℕ
  member_rounds no_members = 1
  member_rounds (member key j ms) = suc (rounds j + member_rounds ms)

  pub item_rounds : Items → ℕ
  item_rounds no_items = 1
  item_rounds (item j is) = suc (rounds j + item_rounds is)

abbrev kept_if : Bool → List Token → Option (List Token)
kept_if b ts = if b then some ts else none

items_start :
    (fuel : ℕ) (j : Json) (ts : List Token)
    → walk_items (suc fuel) (tokens_of j ts)
      ≡ (walk fuel (tokens_of j ts) >>= λ rest. walk_items fuel rest)
unfolding walk_items tokens_of
items_start fuel atom ts = refl
items_start fuel (string s) ts = refl
items_start fuel (object ms) ts = refl
items_start fuel (array is) ts = refl

-- With fuel for its rounds, the walk over a value ends behind it, if no key in it is repeated.
mutual
  unfolding walk walk_members tokens_of member_tokens item_tokens has_distinct_keys distinct_members
      distinct_items rounds member_rounds item_rounds

  walk-tokens_of :
      (j : Json) (fuel : ℕ) (ts : List Token)
      → rounds j ≤ fuel
      → walk fuel (tokens_of j ts) ≡ kept_if (has_distinct_keys j) ts
  walk-tokens_of atom zero ts h = ground arith
  walk-tokens_of atom (suc fuel) ts h = refl
  walk-tokens_of (string s) zero ts h = ground arith
  walk-tokens_of (string s) (suc fuel) ts h = refl
  walk-tokens_of (object ms) zero ts h = ground arith
  walk-tokens_of (object ms) (suc fuel) ts h =
      walk_members-member_tokens ms fuel [] ts (omega arith)
  walk-tokens_of (array is) zero ts h = ground arith
  walk-tokens_of (array is) (suc fuel) ts h = walk_items-item_tokens is fuel ts (omega arith)

  walk_members-member_tokens :
      (ms : Members) (fuel : ℕ) (seen : List Text) (ts : List Token)
      → member_rounds ms ≤ fuel
      → walk_members fuel seen (member_tokens ms ts) ≡ kept_if (distinct_members seen ms) ts
  walk_members-member_tokens no_members zero seen ts h = ground arith
  walk_members-member_tokens no_members (suc fuel) seen ts h = refl
  walk_members-member_tokens (member key j ms) zero seen ts h = ground arith
  walk_members-member_tokens (member key j ms) (suc fuel) seen ts h =
      let first = walk-tokens_of j fuel (member_tokens ms ts) (omega arith) in
      let later = walk_members-member_tokens ms fuel (key ∷ seen) ts (omega arith) in
      rw first (by_test (any (text_eq key) seen) (has_distinct_keys j) later)
    where
      by_test :
          (a b : Bool)
          → walk_members fuel (key ∷ seen) (member_tokens ms ts)
            ≡ kept_if (distinct_members (key ∷ seen) ms) ts
          → (if a
              then none
              else (kept_if b (member_tokens ms ts) >>= λ rest.
                  walk_members fuel (key ∷ seen) rest))
            ≡ kept_if (not a && b && distinct_members (key ∷ seen) ms) ts
      by_test true b e = refl
      by_test false true e = e
      by_test false false e = refl

  walk_items-item_tokens :
      (is : Items) (fuel : ℕ) (ts : List Token)
      → item_rounds is ≤ fuel
      → walk_items fuel (item_tokens is ts) ≡ kept_if (distinct_items is) ts
  walk_items-item_tokens no_items zero ts h = ground arith
  walk_items-item_tokens no_items (suc fuel) ts h = refl
  walk_items-item_tokens (item j is) zero ts h = ground arith
  walk_items-item_tokens (item j is) (suc fuel) ts h =
      let first = walk-tokens_of j fuel (item_tokens is ts) (omega arith) in
      let later = walk_items-item_tokens is fuel ts (omega arith) in
      items_start fuel j (item_tokens is ts) ∙ rw first (by_test (has_distinct_keys j) later)
    where
      by_test :
          (b : Bool)
          → walk_items fuel (item_tokens is ts) ≡ kept_if (distinct_items is) ts
          → (kept_if b (item_tokens is ts) >>= λ rest. walk_items fuel rest)
            ≡ kept_if (b && distinct_items is) ts
      by_test true e = e
      by_test false e = refl

-- Twice the number of tokens is enough fuel.
mutual
  unfolding rounds member_rounds item_rounds tokens_of member_tokens item_tokens

  rounds-tokens_of :
      (j : Json) (ts : List Token) → suc (rounds j) + 2 * length ts ≤ 2 * length (tokens_of j ts)
  rounds-tokens_of atom ts = omega arith
  rounds-tokens_of (string s) ts = omega arith
  rounds-tokens_of (object ms) ts = let later = rounds-member_tokens ms ts in omega arith
  rounds-tokens_of (array is) ts = let later = rounds-item_tokens is ts in omega arith

  rounds-member_tokens :
      (ms : Members) (ts : List Token)
      → suc (member_rounds ms) + 2 * length ts ≤ 2 * length (member_tokens ms ts)
  rounds-member_tokens no_members ts = omega arith
  rounds-member_tokens (member key j ms) ts =
      let first = rounds-tokens_of j (member_tokens ms ts) in
      let later = rounds-member_tokens ms ts in omega arith

  rounds-item_tokens :
      (is : Items) (ts : List Token)
      → suc (item_rounds is) + 2 * length ts ≤ 2 * length (item_tokens is ts)
  rounds-item_tokens no_items ts = omega arith
  rounds-item_tokens (item j is) ts =
      let first = rounds-tokens_of j (item_tokens is ts) in
      let later = rounds-item_tokens is ts in omega arith

-- The fuel of the walk is enough for the tokens of every JSON value: on a document that is one value,
-- the walk returns false exactly when no object in it, however deep, has the same key twice.
pub has_duplicate_object_key_iff :
    (j : Json)
    → has_duplicate_object_key (record { list = tokens_of j []; at_end = true })
      ≡ not (has_distinct_keys j)
unfolding has_duplicate_object_key is_finished
has_duplicate_object_key_iff j =
    let enough = rounds-tokens_of j [] in
    rw (walk-tokens_of j (suc (2 * length (tokens_of j []))) [] (omega arith))
      (by_test (has_distinct_keys j))
  where
    by_test : (b : Bool) → not (is_finished (kept_if b []) true) ≡ not b
    by_test true = refl
    by_test false = refl
