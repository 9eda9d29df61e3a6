-- ===== src/Bundle/Status/View.antt =====
-- internal/bundle/lifecycle.go: the pointers of a bundle root as they are read.
use ssc_init.Base.{
  ℕ, ◌<◌, Bool, true, false, Option, none, some, ◌≡◌, refl, inl, inr, if◌then◌else◌, Text, text_eq,
  text_eq→eq, get, parse_uint, parse_uint-lt, decimal, u64, Option-cases, arith, trim_space,
}
use ssc_init.Bundle.Disk.{Disk, sequence_text, accept_sequence}
use ssc_init.Bundle.Lifecycle.{highest_file, current_file, previous_file}
use ssc_init.Bundle.Lifecycle.Yields.{line}
use ssc_init.Bundle.Lifecycle.Ends.{sequence_text-line}
use ssc_init.Bundle.Lifecycle.Pointers.{previous_after}

-- What a pointer's line is read as is read again.
accepted-line :
    (contents value s : Text) (o : Option ℕ)
    → ((n : ℕ) → o ≡ some n → n < u64)
    → accept_sequence contents value o ≡ some s
    → sequence_text (some (line s)) ≡ some s
accepted-line contents value s none small h = cc
accepted-line contents value s (some n) small h =
    let positive : 0 < n = ground arith in
    let same : s ≡ decimal n = ground (arith, text_eq→eq value (decimal n)) in
    rw same (sequence_text-line n positive (small n refl))

pub sequence_text_again :
    (o : Option Text) (s : Text) → sequence_text o ≡ some s → sequence_text (some (line s)) ≡ some s
sequence_text_again none s h = unfold sequence_text in cc
sequence_text_again (some contents) s h =
    accepted-line contents (trim_space contents) s (parse_uint (trim_space contents))
      (parse_uint-lt (trim_space contents)) (unfold sequence_text in h)

-- The pointers of a root, as they are read.
pub record Pointers : Type 0 where
  pub highest : Option Text
  pub current : Option Text
  pub previous : Option Text

unfoldable pub view : Disk → Pointers
view d = record {
  highest = sequence_text (get highest_file d.files);
  current = sequence_text (get current_file d.files);
  previous = sequence_text (get previous_file d.files);
}

abbrev pub moved_on : Text → Option Text → Option Text → Option Text
moved_on sequence none before = before
moved_on sequence (some current) before = if text_eq current sequence then before else some current

-- What an installation promises: the sequence becomes the highest and the current one, and another
-- one that was current becomes the previous one.
unfoldable pub publish : Text → Pointers → Pointers
publish sequence s = record {
  highest = some sequence;
  current = some sequence;
  previous = moved_on sequence s.current s.previous;
}

pub previous_view :
    (sequence : Text) (c p : Option Text)
    → sequence_text (previous_after sequence (sequence_text c) p)
      ≡ moved_on sequence (sequence_text c) (sequence_text p)
unfolding previous_after
previous_view sequence c p = elim (Option-cases (sequence_text c)) [
  | inl n ↦ rw n refl
  | inr (s, e) ↦ rw e (by_sequence s e (text_eq s sequence))
]
  where
    by_sequence :
        (s : Text)
        → sequence_text c ≡ some s
        → (b : Bool)
        → sequence_text (if b then p else some (line s)) ≡ (if b then sequence_text p else some s)
    by_sequence s e true = refl
    by_sequence s e false = sequence_text_again c s e
