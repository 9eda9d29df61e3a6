-- ===== src/Base/Strings.antt =====
-- Text is the list of the code points of a (valid UTF-8) Go string. The functions of `strings` and
-- `strconv` that the program calls, each with Go's behaviour at the ends of the text.
use Prim.Native.Char.{code}
use Prim.Native.String.{String}
use Prim.Native.Nat.{ℕ, ◌+◌, ◌-◌, ◌*◌, ◌^◌, ◌<◌, Ordering}
use mathlib.Core.Path.{◌≡◌, refl}
use mathlib.Core.Logic.{◌↔◌}
use mathlib.Core.Bool.{Bool, true, false, ◌&&◌, ◌||◌}
use mathlib.Core.Option.{Option, none, some}
use mathlib.Core.List.{List, [], ◌∷◌, map, reverse}
use native.Mathlib.Omega.{arith}
use ssc_init.Base.Tests.{ltb, leb, ◌==◌, if◌then◌else◌}
use ssc_init.Base.Lists.{any}
use ssc_init.Base.Compare.{compare_uint, lex, IsLawful, compare_uint-IsLawful, lex-IsLawful}

abbrev pub Text : Type 0
Text = List ℕ

-- A literal's code points.
abbrev pub codes : String → Text
codes String.[] = []
codes (String.◌∷◌ c s) = code c ∷ codes s

-- `len(value)`: the number of bytes of the UTF-8 encoding.
abbrev pub rune_length : ℕ → ℕ
rune_length c = if ltb c 128 then 1 else if ltb c 2048 then 2 else if ltb c 65536 then 3 else 4

abbrev pub byte_length : Text → ℕ
byte_length [] = 0
byte_length (c ∷ cs) = rune_length c + byte_length cs

-- `left == right`
unfoldable pub text_eq : Text → Text → Bool
text_eq [] [] = true
text_eq [] (d ∷ ds) = false
text_eq (c ∷ cs) [] = false
text_eq (c ∷ cs) (d ∷ ds) = c == d && text_eq cs ds

pub text_eq_refl : (s : Text) → text_eq s s ≡ true
unfolding text_eq
text_eq_refl [] = refl
text_eq_refl (c ∷ cs) = ground (arith, text_eq_refl cs)

pub text_eq→eq : (s t : Text) → text_eq s t ≡ true → s ≡ t
unfolding text_eq
text_eq→eq [] [] h = refl
text_eq→eq [] (d ∷ ds) h = ground arith
text_eq→eq (c ∷ cs) [] h = ground arith
text_eq→eq (c ∷ cs) (d ∷ ds) h = ground (arith, text_eq→eq cs ds)

pub text_eq_iff : (s t : Text) → (text_eq s t ≡ true) ↔ (s ≡ t)
text_eq_iff s t = (text_eq→eq s t, λ e. ground (arith, text_eq_refl s))

-- Go's `<` on strings: UTF-8 keeps the order of the code points.
unfoldable pub compare_text : Text → Text → Ordering
compare_text = lex compare_uint

pub compare_text-IsLawful : IsLawful compare_text
unfolding compare_text
compare_text-IsLawful = lex-IsLawful compare_uint compare_uint-IsLawful

-- Texts that compare equal are the same text.
pub compare_text-eq : (s t : Text) → compare_text s t ≡ Ordering.eq → s ≡ t
unfolding compare_text compare_uint
compare_text-eq [] [] h = refl
compare_text-eq [] (d ∷ ds) h = ground arith
compare_text-eq (c ∷ cs) [] h = ground arith
compare_text-eq (c ∷ cs) (d ∷ ds) h = ground (arith, compare_text-eq cs ds)

-- `strings.HasPrefix`
unfoldable pub has_prefix : Text → Text → Bool
has_prefix s [] = true
has_prefix [] (p ∷ ps) = false
has_prefix (c ∷ cs) (p ∷ ps) = c == p && has_prefix cs ps

-- The text behind the first `n` code points.
abbrev pub skip : Text → Text → Text
skip [] s = s
skip (p ∷ ps) [] = []
skip (p ∷ ps) (c ∷ cs) = skip ps cs

-- `strings.TrimPrefix`
unfoldable pub trim_prefix : Text → Text → Text
trim_prefix s p = if has_prefix s p then skip p s else s

-- `strings.HasSuffix` and `strings.TrimSuffix`
unfoldable pub has_suffix : Text → Text → Bool
has_suffix s p = has_prefix (reverse s) (reverse p)

unfoldable pub trim_suffix : Text → Text → Text
trim_suffix s p = reverse (trim_prefix (reverse s) (reverse p))

-- `strings.Contains`
unfoldable pub contains : Text → Text → Bool
contains [] p = has_prefix [] p
contains (c ∷ cs) p = has_prefix (c ∷ cs) p || contains cs p

-- `strings.ContainsAny`
unfoldable pub contains_any : Text → Text → Bool
contains_any s set = any (λ c. any (λ d. c == d) set) s

-- `unicode.IsSpace`
unfoldable pub is_space : ℕ → Bool
is_space c =
    leb 9 c && leb c 13
    || c == 32
    || c == 0x85
    || c == 0xa0
    || c == 0x1680
    || leb 0x2000 c && leb c 0x200a
    || c == 0x2028
    || c == 0x2029
    || c == 0x202f
    || c == 0x205f
    || c == 0x3000

-- `strings.TrimSpace`
unfoldable pub trim_left : Text → Text
trim_left [] = []
trim_left (c ∷ cs) = let rest = trim_left cs in if is_space c then rest else c ∷ cs

unfoldable pub trim_space : Text → Text
trim_space s = reverse (trim_left (reverse (trim_left s)))

-- A code point in front of the first part.
abbrev pub push : ℕ → List Text → List Text
push c [] = (c ∷ []) ∷ []
push c (p ∷ ps) = (c ∷ p) ∷ ps

-- `strings.Split(value, sep)` at a separator of one code point.
unfoldable pub split : ℕ → Text → List Text
split sep [] = [] ∷ []
split sep (c ∷ cs) = let rest = split sep cs in if c == sep then [] ∷ rest else push c rest

-- `strings.Split(value, sep + sep)`
unfoldable pub split_pair : ℕ → Text → List Text
split_pair sep [] = [] ∷ []
split_pair sep (c ∷ []) = (c ∷ []) ∷ []
split_pair sep (c ∷ d ∷ cs) =
    let apart = [] ∷ split_pair sep cs in
    let joined = push c (split_pair sep (d ∷ cs)) in if c == sep && d == sep then apart else joined

-- `strings.Fields`: the parts between spaces that are not empty.
abbrev pub keep_nonempty : List Text → List Text
keep_nonempty [] = []
keep_nonempty ([] ∷ ps) = keep_nonempty ps
keep_nonempty ((c ∷ p) ∷ ps) = (c ∷ p) ∷ keep_nonempty ps

unfoldable pub split_spaces : Text → List Text
split_spaces [] = [] ∷ []
split_spaces (c ∷ cs) = let rest = split_spaces cs in if is_space c then [] ∷ rest else push c rest

unfoldable pub fields : Text → List Text
fields s = keep_nonempty (split_spaces s)

-- `strings.ReplaceAll` of one code point by one code point.
unfoldable pub replace_all : ℕ → ℕ → Text → Text
replace_all from to = map (λ c. if c == from then to else c)

-- `strings.Cut` at one code point: the texts before and behind its first occurrence.
unfoldable pub cut : ℕ → Text → Option (Text × Text)
cut sep [] = none
cut sep (c ∷ cs) =
    let rest = cut sep cs in
    if c == sep then some ([], cs) else elim rest [ none ↦ none | some (a, b) ↦ some (c ∷ a, b) ]

-- `value >= '0' && value <= '9'`
unfoldable pub is_digit : ℕ → Bool
is_digit c = leb 48 c && leb c 57

unfoldable pub parse_digits : ℕ → Text → Option ℕ
parse_digits n [] = some n
parse_digits n (c ∷ cs) =
    let rest = parse_digits (n * 10 + (c - 48)) cs in if is_digit c then rest else none

abbrev pub u64 : ℕ
u64 = 2 ^ 64

-- `strconv.ParseUint(value, 10, 64)`; `none` is either of its errors.
unfoldable pub parse_uint : Text → Option ℕ
parse_uint [] = none
parse_uint (c ∷ cs) = elim (parse_digits 0 (c ∷ cs)) [
  | none ↦ none
  | some n ↦ if ltb n u64 then some n else none
]

-- What is parsed fits 64 bits.
pub parse_uint-lt : (s : Text) (n : ℕ) → parse_uint s ≡ some n → n < u64
unfolding parse_uint
parse_uint-lt [] n h = ground arith
parse_uint-lt (c ∷ cs) n h = ground arith

-- `strings.ToLower` on the letters A to Z, and on the two letters beyond ASCII whose lower case
-- is an ASCII letter; every other code point is left alone.
unfoldable pub to_lower : Text → Text
to_lower = map (λ c.
    if leb 65 c && leb c 90
    then c + 32
    else if c == 0x130
    then 0x69
    else if c == 0x212a
    then 0x6b
    else c)
