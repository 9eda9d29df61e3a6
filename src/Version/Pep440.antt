-- ===== src/Version/Pep440.antt =====
-- internal/analyzer/version/osv.go: PEP 440 versions and their order. `Groups` are the submatches of
-- `pep440Pattern`; an absent one is the empty text.
pub mod Order
use mathlib.Core.Option
use ssc_init.Base.{
  ℕ, zero, suc, Ordering, lt, eq, gt, Bool, true, false, not, ◌&&◌, Option, none, some, List, [],
  ◌∷◌, map, ◌>>=◌, ◌||◌, ◌==◌, lex, is_empty, all, if◌then◌else◌, ◌then◌, opposite, compare_uint,
  Text, codes, text_eq, compare_text, split, is_digit, parse_uint, to_lower,
}

pub record Groups : Type 0 where
  pub epoch : Text
  pub release : Text
  pub pre_kind : Text
  pub pre_number : Text
  pub post_dash : Text
  pub post_word : Text
  pub post_number : Text
  pub dev_word : Text
  pub dev_number : Text
  pub local : Text

pub record Pre : Type 0 where
  pub kind : ℕ
  pub number : ℕ

-- `pep440Local`: a numeric part has a number, another one a text.
pub data Local : Type 0 where
  numeric : ℕ → Local
  textual : Text → Local

pub record Version : Type 0 where
  pub epoch : ℕ
  pub release : List ℕ
  pub pre : Option Pre
  pub post : Option ℕ
  pub dev : Option ℕ
  pub local : List Local

unfoldable pub optional_uint : Text → Option ℕ
optional_uint [] = some 0
optional_uint (c ∷ cs) = parse_uint (c ∷ cs)

-- The map from the spelling of a prerelease to its rank.
unfoldable pub pre_rank : Text → ℕ
pre_rank word =
    if text_eq word (codes "b")
    then 1
    else if text_eq word (codes "beta")
    then 1
    else if text_eq word (codes "c")
    then 2
    else if text_eq word (codes "rc")
    then 2
    else if text_eq word (codes "pre")
    then 2
    else if text_eq word (codes "preview")
    then 2
    else 0

unfoldable pub parse_uints : List Text → Option (List ℕ)
parse_uints [] = some []
parse_uints (part ∷ parts) = elim (parse_uint part) [
  | none ↦ none
  | some n ↦ elim (parse_uints parts) [ none ↦ none | some ns ↦ some (n ∷ ns) ]
]

unfoldable pub parse_local : Text → Option Local
parse_local part =
    if all is_digit part
    then elim (parse_uint part) [ none ↦ none | some n ↦ some (numeric n) ]
    else some (textual part)

unfoldable pub parse_locals : List Text → Option (List Local)
parse_locals [] = some []
parse_locals (part ∷ parts) = elim (parse_local part) [
  | none ↦ none
  | some l ↦ elim (parse_locals parts) [ none ↦ none | some ls ↦ some (l ∷ ls) ]
]

-- The separators `-`, `_` and `.` of a local version, all as `.`.
unfoldable pub dotted : Text → Text
dotted = map (λ c. if c == b'-' then b'.' else if c == b'_' then b'.' else c)

unfoldable pub parse_pre : Groups → Option (Option Pre)
parse_pre g = if is_empty g.pre_kind then some none else elim (optional_uint g.pre_number) [
  | none ↦ none
  | some n ↦ some (some (record { kind = pre_rank g.pre_kind; number = n }))
]

-- `postValue`
unfoldable pub post_value : Groups → Text
post_value g =
    if is_empty g.post_dash && not (is_empty g.post_word) then g.post_number else g.post_dash

abbrev number_if : Bool → Text → Option (Option ℕ)
number_if true value = Option.map some (optional_uint value)
number_if false value = some none

unfoldable pub parse_groups : Groups → Option Version
parse_groups g = do
  epoch ← optional_uint g.epoch
  release ← parse_uints (split b'.' g.release)
  pre ← parse_pre g
  post ← number_if (not (is_empty g.post_dash) || not (is_empty g.post_word)) (post_value g)
  dev ← number_if (not (is_empty g.dev_word)) g.dev_number
  local ← if is_empty g.local then some [] else parse_locals (split b'.' (dotted g.local))
  some (record {
    epoch = epoch;
    release = release;
    pre = pre;
    post = post;
    dev = dev;
    local = local;
  })

-- `parsePEP440`, over the regular expression engine: `find` is `pep440Pattern.FindStringSubmatch`.
unfoldable pub parse_pep440 : (Text → Option Groups) → Text → Option Version
parse_pep440 find value = elim (find (to_lower value)) [ none ↦ none | some g ↦ parse_groups g ]

-- The shorter release counts as padded with zeros.
unfoldable pub compare_release : List ℕ → List ℕ → Ordering
compare_release [] [] = eq
compare_release [] (r ∷ rs) = compare_uint 0 r then compare_release [] rs
compare_release (l ∷ ls) [] = compare_uint l 0 then compare_release ls []
compare_release (l ∷ ls) (r ∷ rs) = compare_uint l r then compare_release ls rs

-- `leftRank` and `rightRank`, with -1, 0 and 1 as 0, 1 and 2.
unfoldable pub rank : Version → ℕ
rank v = rank_of v.pre v.dev v.post
  where
    rank_of : Option Pre → Option ℕ → Option ℕ → ℕ
    rank_of (some p) dev post = 1
    rank_of none (some d) none = 0
    rank_of none _ _ = 2

-- Both prereleases, or 0 where one is absent.
unfoldable pub compare_both : Option Pre → Option Pre → Ordering
compare_both (some l) (some r) = compare_uint l.kind r.kind then compare_uint l.number r.number
compare_both _ _ = eq

unfoldable pub compare_pre : Version → Version → Ordering
compare_pre left right = compare_uint (rank left) (rank right) then compare_both left.pre right.pre

unfoldable pub compare_optional_uint : Option ℕ → Option ℕ → Ordering → Ordering
compare_optional_uint none none absent = eq
compare_optional_uint none (some r) absent = absent
compare_optional_uint (some l) none absent = opposite absent
compare_optional_uint (some l) (some r) absent = compare_uint l r

unfoldable pub compare_local_part : Local → Local → Ordering
compare_local_part (numeric m) (numeric n) = compare_uint m n
compare_local_part (numeric m) (textual t) = gt
compare_local_part (textual s) (numeric n) = lt
compare_local_part (textual s) (textual t) = compare_text s t

-- The loop, and the lengths behind it.
unfoldable pub compare_local : List Local → List Local → Ordering
compare_local = lex compare_local_part

unfoldable pub compare_pep440 : Version → Version → Ordering
compare_pep440 left right =
    compare_uint left.epoch right.epoch
    then compare_release left.release right.release
    then compare_pre left right
    then compare_optional_uint left.post right.post lt
    then compare_optional_uint left.dev right.dev gt
    then compare_local left.local right.local
