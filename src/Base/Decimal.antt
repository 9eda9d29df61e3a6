-- ===== src/Base/Decimal.antt =====
-- `strconv.FormatUint(value, 10)`, and how the decimal is read again.
use mathlib.Core.Path.{◌≡◌, refl, ◌∙◌}
use mathlib.Core.Logic.{inl, inr}
use mathlib.Core.Bool.{true, false}
use mathlib.Core.Option.{some}
use mathlib.Core.List.{[], ◌∷◌, ◌++◌, reverse, reverse-append, reverse-reverse}
use Prim.Native.Nat.{ℕ, zero, suc, ◌+◌, ◌-◌, ◌*◌, ◌/◌, ◌%◌, ◌<◌}
use native.Mathlib.Omega.{arith}
use ssc_init.Base.Tests.{if◌then◌else◌, ltb, Bool-cases}
use ssc_init.Base.Lists.{all, is_empty}
use ssc_init.Base.Strings.{
  Text, is_digit, is_space, parse_digits, parse_uint, u64, trim_left, trim_space,
}

-- The digits of a number in front of a text, by at most as many rounds as the fuel says.
unfoldable pub digits : ℕ → ℕ → Text → Text
digits zero n rest = rest
digits (suc fuel) n rest =
    let more = digits fuel (n / 10) ((48 + n % 10) ∷ rest) in
    if ltb n 10 then (48 + n) ∷ rest else more

-- A `uint64` has at most 20 digits.
unfoldable pub decimal : ℕ → Text
decimal n = digits 20 n []

-- The greatest number that the fuel suffices for, and one.
abbrev pub room : ℕ → ℕ
room zero = 1
room (suc fuel) = 10 * room fuel

parse_digits-digits :
    (fuel n : ℕ) (rest : Text)
    → n < room (suc fuel)
    → parse_digits 0 (digits (suc fuel) n rest) ≡ parse_digits n rest
unfolding digits parse_digits is_digit
parse_digits-digits zero n rest h = ground arith
parse_digits-digits (suc fuel) n rest h = elim (Bool-cases (ltb n 10)) [
  | inl t ↦ ground arith
  | inr f ↦ rw f (parse_digits-digits fuel (n / 10) ((48 + n % 10) ∷ rest) (omega arith) ∙ last)
]
  where
    last : parse_digits (n / 10) ((48 + n % 10) ∷ rest) ≡ parse_digits n rest
    last = let e : n / 10 * 10 + (48 + n % 10 - 48) ≡ n = omega arith in ground arith

digits-digit :
    (fuel n : ℕ) (rest : Text) → all is_digit rest ≡ true → all is_digit (digits fuel n rest) ≡ true
unfolding digits is_digit
digits-digit zero n rest h = h
digits-digit (suc fuel) n rest h = ground (arith, digits-digit fuel (n / 10) ((48 + n % 10) ∷ rest))

digits-nonempty :
    (fuel n : ℕ) (rest : Text) → is_empty rest ≡ false → is_empty (digits fuel n rest) ≡ false
unfolding digits
digits-nonempty zero n rest h = h
digits-nonempty (suc fuel) n rest h =
    ground (arith, digits-nonempty fuel (n / 10) ((48 + n % 10) ∷ rest) refl)

pub decimal-nonempty : (n : ℕ) → is_empty (decimal n) ≡ false
unfolding decimal digits
decimal-nonempty n = ground (arith, digits-nonempty 19 (n / 10) ((48 + n % 10) ∷ []) refl)

pub decimal-digit : (n : ℕ) → all is_digit (decimal n) ≡ true
unfolding decimal
decimal-digit n = digits-digit 20 n [] refl

parse_uint_of :
    (s : Text) (n : ℕ)
    → is_empty s ≡ false
    → parse_digits 0 s ≡ some n
    → n < u64
    → parse_uint s ≡ some n
unfolding parse_uint
parse_uint_of [] n e p h = cc
parse_uint_of (c ∷ cs) n e p h = ground arith

-- What is printed is read again.
pub parse_uint-decimal : (n : ℕ) → n < u64 → parse_uint (decimal n) ≡ some n
parse_uint-decimal n h =
    parse_uint_of (decimal n) n (decimal-nonempty n)
      (unfold decimal parse_digits in parse_digits-digits 19 n [] (omega arith)) h

trim_left_digit : (s : Text) → all is_digit s ≡ true → trim_left s ≡ s
unfolding trim_left is_digit is_space
trim_left_digit [] h = refl
trim_left_digit (c ∷ cs) h = ground arith

all-append :
    (s t : Text) → all is_digit s ≡ true → all is_digit t ≡ true → all is_digit (s ++ t) ≡ true
all-append [] t h k = k
all-append (c ∷ cs) t h k = ground (arith, all-append cs t)

all-reverse : (s : Text) → all is_digit s ≡ true → all is_digit (reverse s) ≡ true
all-reverse [] h = refl
all-reverse (c ∷ cs) h =
    rw (reverse-append (c ∷ []) cs)
      (all-append (reverse cs) (c ∷ []) (all-reverse cs (ground arith)) (ground arith))

-- A line of digits, without the line's end.
pub trim_space_line :
    (s : Text) → all is_digit s ≡ true → is_empty s ≡ false → trim_space (s ++ 10 ∷ []) ≡ s
unfolding trim_space trim_left is_space is_digit
trim_space_line [] h e = cc
trim_space_line (c ∷ cs) h e =
    let front : trim_left (c ∷ cs ++ 10 ∷ []) ≡ c ∷ cs ++ 10 ∷ [] = ground arith in
    let back : trim_left (reverse (c ∷ cs ++ 10 ∷ [])) ≡ reverse (c ∷ cs) =
      rw (reverse-append (c ∷ cs) (10 ∷ []))
        (trim_left_digit (reverse (c ∷ cs)) (all-reverse (c ∷ cs) h)) in
    rw front (rw back (reverse-reverse (c ∷ cs)))
