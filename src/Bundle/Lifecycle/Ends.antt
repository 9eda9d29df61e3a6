-- ===== src/Bundle/Lifecycle/Ends.antt =====
-- internal/bundle/lifecycle.go: what holds of the disk when a method returns, by how it does.
use ssc_init.Base.{
  ℕ, zero, suc, ◌+◌, ◌≤◌, ◌<◌, Bool, true, false, Option, none, some, [], ◌∷◌, ◌++◌, ◌/◌, ◌%◌, ◌≡◌,
  refl, Text, text_eq_refl, byte_length, decimal, digits, u64, arith, trim_space_line,
  decimal-digit, decimal-nonempty, parse_uint-decimal,
}
use ssc_init.Bundle.Disk.{World, Disk, Effect, sequence_text}
use ssc_init.Bundle.Lifecycle.Yields.{line, Yields}
use ssc_init.Bundle.Lifecycle.Monad.{Io, Result, ok, err, Error, some_or, require, must, continue}

-- One predicate for a result, another for an error.
unfoldable pub Ends :
    {A : Type 0} → (A → World → Type 0) → (World → Type 0) → Result A × World → Type 0
Ends Q E (ok a, w) = Q a w
Ends Q E (err e, w) = E w

pub next-Ends :
    {A B : Type 0} (Q : A → World → Type 0) (S : B → World → Type 0) (E E' : World → Type 0)
    (f : A → Io B) (r : Result A × World)
    → Ends Q E r
    → ((w : World) → E w → E' w)
    → ((a : A) (w : World) → Q a w → Ends S E' (f a w))
    → Ends S E' (continue f r)
unfolding Ends continue
next-Ends Q S E E' f (ok a, w) h e k = k a w h
next-Ends Q S E E' f (err x, w) h e k = e w h

-- What holds however a method ends.
pub always-Ends :
    {A : Type 0} (I : World → Type 0) (r : Result A × World) → I r.1 → Ends (λ a w. I w) I r
unfolding Ends
always-Ends I (ok a, w) h = h
always-Ends I (err e, w) h = h

pub some_or-Ends :
    {A : Type 0} (I : World → Type 0) (o : Option A) (e : Error) (w : World)
    → I w
    → Ends (λ a w'. I w' × (o ≡ some a)) I (some_or o e w)
unfolding Ends
some_or-Ends I none e w h = h
some_or-Ends I (some a) e w h = (h, refl)

pub must-Ends :
    (G F : Disk → Type 0) (m : Effect Bool) (e : Error) (w : World)
    → Yields G F (m w)
    → Ends (λ u w'. G w'.disk) (λ w'. F w'.disk) (must m e w)
unfolding Ends continue
must-Ends G F m e w y = branch (m w) y
  where
    branch :
        (r : Bool × World)
        → Yields G F r
        → Ends {A = Unit}
            (λ u w'. G w'.disk)
            (λ w'. F w'.disk)
            (continue (λ good. require good e) (ok r.0, r.1))
    branch (true, w') h = h
    branch (false, w') h = h

byte_length-append_digit :
    (s : Text) (c : ℕ) → c < 128 → byte_length (s ++ c ∷ []) ≡ suc (byte_length s)
byte_length-append_digit [] c h = ground arith
byte_length-append_digit (x ∷ s) c h = ground (arith, byte_length-append_digit s c h)

digits-byte_length :
    (fuel n : ℕ) (rest : Text) → byte_length (digits fuel n rest) ≤ fuel + byte_length rest
unfolding digits
digits-byte_length zero n rest = omega arith
digits-byte_length (suc fuel) n rest =
    ground (arith, digits-byte_length fuel (n / 10) ((48 + n % 10) ∷ rest))

-- A pointer's line is read as what was written.
pub sequence_text-line :
    (n : ℕ) → 0 < n → n < u64 → sequence_text (some (line (decimal n))) ≡ some (decimal n)
unfolding sequence_text
sequence_text-line n positive small =
    let short : byte_length (decimal n ++ 10 ∷ []) ≤ 21 =
      unfold decimal in
      grind (
        arith,
        byte_length-append_digit (decimal n) 10 (omega arith),
        digits-byte_length 20 n [],
      ) in
    rw (trim_space_line (decimal n) (decimal-digit n) (decimal-nonempty n))
      (rw (parse_uint-decimal n small) (rw (text_eq_refl (decimal n)) (ground arith)))

pub weaken-Ends :
    {A : Type 0} (Q Q' : A → World → Type 0) (E E' : World → Type 0) (r : Result A × World)
    → Ends Q E r
    → ((a : A) (w : World) → Q a w → Q' a w)
    → ((w : World) → E w → E' w)
    → Ends Q' E' r
unfolding Ends
weaken-Ends Q Q' E E' (ok a, w) h q e = q a w h
weaken-Ends Q Q' E E' (err x, w) h q e = e w h
