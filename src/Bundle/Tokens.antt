-- ===== src/Bundle/Tokens.antt =====
-- internal/bundle/model.go: `hasDuplicateObjectKey`, over the tokens of `json.Decoder`.
pub mod Trees
use ssc_init.Base.{
  ℕ, zero, suc, Bool, true, false, not, ◌&&◌, Option, none, some, List, [], ◌∷◌, any, is_empty,
  length, ◌*◌, ◌>>=◌, if◌then◌else◌, Text, text_eq,
}

-- What `decoder.Token` returns: a delimiter, a string, or another value.
pub data Token : Type 0 where
  open_object close_object open_array close_array value : Token
  text : Text → Token

-- The tokens up to the first error, and whether that error is the end of the input.
pub record Tokens : Type 0 where
  pub list : List Token
  pub at_end : Bool

-- The walk over one value, with the tokens behind it. `none` stands for true: a key that is repeated, or
-- an error. Where the input ends, both `decoder.More` and the token after it lead there.
unfoldable mutual
  pub walk : ℕ → List Token → Option (List Token)
  walk zero ts = none
  walk (suc fuel) [] = none
  walk (suc fuel) (open_object ∷ ts) = walk_members fuel [] ts
  walk (suc fuel) (open_array ∷ ts) = walk_items fuel ts
  walk (suc fuel) (close_object ∷ ts) = none
  walk (suc fuel) (close_array ∷ ts) = none
  walk (suc fuel) (value ∷ ts) = some ts
  walk (suc fuel) (text s ∷ ts) = some ts

  -- The loop over the members of an object, with the keys seen so far.
  pub walk_members : ℕ → List Text → List Token → Option (List Token)
  walk_members zero seen ts = none
  walk_members (suc fuel) seen [] = none
  walk_members (suc fuel) seen (close_object ∷ ts) = some ts
  walk_members (suc fuel) seen (close_array ∷ ts) = some ts
  walk_members (suc fuel) seen (text key ∷ ts) =
      if any (text_eq key) seen
      then none
      else (walk fuel ts >>= λ rest. walk_members fuel (key ∷ seen) rest)
  walk_members (suc fuel) seen (open_object ∷ ts) = none
  walk_members (suc fuel) seen (open_array ∷ ts) = none
  walk_members (suc fuel) seen (value ∷ ts) = none

  -- The loop over the items of an array.
  pub walk_items : ℕ → List Token → Option (List Token)
  walk_items zero ts = none
  walk_items (suc fuel) [] = none
  walk_items (suc fuel) (close_object ∷ ts) = some ts
  walk_items (suc fuel) (close_array ∷ ts) = some ts
  walk_items (suc fuel) (open_object ∷ ts) =
      walk fuel (open_object ∷ ts) >>= λ rest. walk_items fuel rest
  walk_items (suc fuel) (open_array ∷ ts) =
      walk fuel (open_array ∷ ts) >>= λ rest. walk_items fuel rest
  walk_items (suc fuel) (value ∷ ts) = walk fuel (value ∷ ts) >>= λ rest. walk_items fuel rest
  walk_items (suc fuel) (text s ∷ ts) = walk fuel (text s ∷ ts) >>= λ rest. walk_items fuel rest

-- Whether the walk has gone over all the tokens, and the input ends behind them.
unfoldable pub is_finished : Option (List Token) → Bool → Bool
is_finished none at_end = false
is_finished (some rest) at_end = is_empty rest && at_end

-- `hasDuplicateObjectKey`. Every round of the walk and of its loops reads a token or is followed by one
-- that does, so that twice the number of tokens is enough fuel.
unfoldable pub has_duplicate_object_key : Tokens → Bool
has_duplicate_object_key tokens =
    not (is_finished (walk (suc (2 * length tokens.list)) tokens.list) tokens.at_end)
