-- ===== src/Version/Range/Window.antt =====
-- internal/analyzer/version/range.go: the `^` and `~` windows of `matchWindow`.
use ssc_init.Base.{
  ◌+◌, ◌-◌, ◌<◌, ◌≡◌, ◌≢◌, ◌↔◌, refl, Bool, true, false, lt, List, [], ◌∷◌, arith, u64, ltb,
  if◌then◌else◌, Text, compare_uint,
}
use ssc_init.Version.Semver.{ParsedVersion, compare, compare_numbers, compare_prerelease}
use ssc_init.Version.Range.{comparison_matches, window_end, in_window}

-- The numbers that a window fixes: for `^` up to the first that is not zero, for `~` the first one,
-- and the second too if it is written.
abbrev pub SameLead : ParsedVersion → ParsedVersion → Bool → Type 0
SameLead v lower true =
    if ltb 0 lower.numbers.n0
    then v.numbers.n0 ≡ lower.numbers.n0
    else if ltb 0 lower.numbers.n1
    then (v.numbers.n0 ≡ lower.numbers.n0) × (v.numbers.n1 ≡ lower.numbers.n1)
    else (v.numbers.n0 ≡ lower.numbers.n0)
      × (v.numbers.n1 ≡ lower.numbers.n1)
      × (v.numbers.n2 ≡ lower.numbers.n2)
SameLead v lower false =
    if ltb lower.precision 2
    then v.numbers.n0 ≡ lower.numbers.n0
    else (v.numbers.n0 ≡ lower.numbers.n0) × (v.numbers.n1 ≡ lower.numbers.n1)

-- No number of the window's lower end is the greatest `uint64`.
abbrev pub HasRoom : ParsedVersion → Type 0
HasRoom lower =
    (lower.numbers.n0 + 1 < u64) × (lower.numbers.n1 + 1 < u64) × (lower.numbers.n2 + 1 < u64)

-- A release is compared with the end of a window by its numbers.
release-compare :
    (v e : ParsedVersion)
    → v.prerelease ≡ []
    → e.prerelease ≡ []
    → compare v e ≡ compare_numbers v.numbers e.numbers
unfolding compare compare_prerelease
release-compare v e p q = ground arith

in_window-SameLead :
    (v lower : ParsedVersion) (caret : Bool)
    → v.prerelease ≡ []
    → HasRoom lower
    → in_window v lower caret ≡ true
    → SameLead v lower caret
unfolding in_window window_end comparison_matches compare_numbers compare_uint compare
in_window-SameLead v lower true p room h =
    ground (arith, release-compare v (window_end lower true) p refl)
in_window-SameLead v lower false p room h =
    ground (arith, release-compare v (window_end lower false) p refl)

in_window-ne_lt :
    (v lower : ParsedVersion) (caret : Bool) → in_window v lower caret ≡ true → compare v lower ≢ lt
unfolding in_window comparison_matches
in_window-ne_lt v lower caret h = λ e. ground arith

SameLead-in_window :
    (v lower : ParsedVersion) (caret : Bool)
    → v.prerelease ≡ []
    → HasRoom lower
    → compare v lower ≢ lt
    → SameLead v lower caret
    → in_window v lower caret ≡ true
unfolding in_window window_end comparison_matches compare_numbers compare_uint
SameLead-in_window v lower true p room ge same =
    ground (arith, release-compare v (window_end lower true) p refl)
SameLead-in_window v lower false p room ge same =
    ground (arith, release-compare v (window_end lower false) p refl)

-- A release lies in a window exactly when it is not below the lower end and has the same leading
-- numbers, provided that no number of the lower end is the greatest `uint64`.
pub in_window_iff :
    (v lower : ParsedVersion) (caret : Bool)
    → v.prerelease ≡ []
    → HasRoom lower
    → (in_window v lower caret ≡ true) ↔ ((compare v lower ≢ lt) × SameLead v lower caret)
in_window_iff v lower caret p room = (
  λ h. (in_window-ne_lt v lower caret h, in_window-SameLead v lower caret p room h),
  λ h. SameLead-in_window v lower caret p room h.0 h.1,
)

-- A `^` window above a version whose first number is the greatest `uint64` holds no version: the
-- end of the window wraps to 0.0.0.
pub in_window_wraps :
    (v lower : ParsedVersion) → lower.numbers.n0 ≡ u64 - 1 → in_window v lower true ≡ false
unfolding in_window window_end comparison_matches compare compare_numbers compare_uint
in_window_wraps v lower top = ground arith

-- The first version behind a `^` window, as a prerelease.
abbrev pub next_prerelease : ParsedVersion → Text → List Text → ParsedVersion
next_prerelease lower part parts = record lower {
  numbers = record { n0 = lower.numbers.n0 + 1; n1 = 0; n2 = 0; n3 = 0 };
  prerelease = part ∷ parts;
}

-- Every prerelease of the next major version lies in the `^` window of a version whose first number
-- is neither 0 nor the greatest `uint64`.
pub in_window-next_prerelease :
    (lower : ParsedVersion) (part : Text) (parts : List Text)
    → 0 < lower.numbers.n0
    → lower.numbers.n0 + 1 < u64
    → in_window (next_prerelease lower part parts) lower true ≡ true
unfolding in_window window_end comparison_matches compare compare_numbers compare_uint
    compare_prerelease
in_window-next_prerelease lower part parts pos room = ground arith
