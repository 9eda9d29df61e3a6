-- ===== src/Bundle/Lifecycle/Pointers.antt =====
-- internal/bundle/lifecycle.go: the three pointers after `Install` has written them.
use ssc_init.Base.{
  Bool, true, false, Option, none, some, List, [], ◌∷◌, ◌≡◌, refl, ap, ◌∙◌, ◌⊎◌, inl, inr,
  if◌then◌else◌, Text, text_eq, Dict, get, Bool-cases,
}
use ssc_init.Bundle.Library.{Bytes}
use ssc_init.Bundle.Disk.{
  Disk, World, rest_of, head_or, read, read_pointer, sequence_text, write_pointer, temporary_name,
}
use ssc_init.Bundle.Lifecycle.Monad.{ok, Error, lift, require, must, continue, install_failed}
use ssc_init.Bundle.Lifecycle.{highest_file, current_file, previous_file, keep_previous, point_to}
use ssc_init.Bundle.Lifecycle.Stable.{Holds, IgnoresFile, write_pointer-Stable, read-Stable}
use ssc_init.Bundle.Lifecycle.Yields.{Yields, HoldsText, line, write_pointer-Yields}
use ssc_init.Bundle.Lifecycle.Ends.{Ends, next-Ends, weaken-Ends}

-- No read to come fails.
abbrev pub Readable : List Bool → Type 0
Readable l = l ≡ []

pub rest-Readable : (l : List Bool) → Readable l → Readable (rest_of l)
unfolding rest_of
rest-Readable [] h = refl
rest-Readable (b ∷ l) h = cc

pub read_readable :
    {A : Type 0} (f : Disk → Option A) (w : World)
    → Readable w.read_faults
    → (read f w).0 ≡ f w.disk
unfolding read head_or
read_readable f w h = rw h refl

-- What is known of the files and directories, and that the reads to come do not fail.
abbrev pub Knows : (Dict Text → Dict (Dict Bytes) → Type 0) → World → Type 0
Knows J w = Holds J Readable rest-Readable w

abbrev pub Leaves : (Dict Text → Dict (Dict Bytes) → Type 0) → Text → Type 0
Leaves J name = IgnoresFile J Readable rest-Readable name

-- A pointer is written, and what does not depend on it is kept.
module _ (J : Dict Text → Dict (Dict Bytes) → Type 0) (name : Text) (c : Option Text)
    (sequence : Text) (e : Error) where
  pub write-Ends :
      text_eq (temporary_name name) name ≡ false
      → Leaves J (temporary_name name)
      → Leaves J name
      → (w : World) → HoldsText name c w.disk
      → Knows J w
      → Ends
          (λ u w'. HoldsText name (some (line sequence)) w'.disk × Knows J w')
          (λ w'. HoldsText name c w'.disk × Knows J w')
          (must (write_pointer name sequence) e w)
  unfolding Ends continue
  write-Ends apart ig_temporary ig w h j =
      branch (write_pointer name sequence w) (write_pointer-Yields name c apart sequence w h)
        (write_pointer-Stable J Readable rest-Readable name sequence ig_temporary ig w j)
    where
      branch :
          (r : Bool × World)
          → Yields (HoldsText name (some (line sequence))) (HoldsText name c) r
          → Knows J r.1
          → Ends {A = Unit}
              (λ u w'. HoldsText name (some (line sequence)) w'.disk × Knows J w')
              (λ w'. HoldsText name c w'.disk × Knows J w')
              (continue (λ good. require good e) (ok r.0, r.1))
      branch (true, w') y k = (y, k)
      branch (false, w') y k = (y, k)

-- A pointer is read as what its file holds.
pub read_pointer-Ends :
    (J : Dict Text → Dict (Dict Bytes) → Type 0) (name : Text) (c : Option Text)
    → ((f : Dict Text) (d : Dict (Dict Bytes)) → J f d → get name f ≡ c)
    → (w : World) → Knows J w
    → Ends (λ o w'. (o ≡ sequence_text c) × Knows J w') (Knows J) (lift (read_pointer name) w)
unfolding Ends read_pointer
read_pointer-Ends J name c part w k =
    let j : J w.disk.files w.disk.directories × Readable w.read_faults = unfold Holds in k in
    (
      read_readable (λ d. sequence_text (get name d.files)) w j.1
          ∙ ap sequence_text (part w.disk.files w.disk.directories j.0),
      read-Stable J Readable rest-Readable (λ d. sequence_text (get name d.files)) w k,
    )

-- The pointer to the version before, after an installation.
unfoldable pub previous_after : Text → Option Text → Option Text → Option Text
previous_after sequence none before = before
previous_after sequence (some current) before =
    if text_eq current sequence then before else some (line current)

-- What the three pointers hold, and what is known of the directories.
abbrev pub Pointed :
    (Dict (Dict Bytes) → Type 0)
    → Option Text
    → Option Text
    → Option Text
    → Dict Text
    → Dict (Dict Bytes)
    → Type 0
Pointed D x y z f d =
    (get highest_file f ≡ x) × (get current_file f ≡ y) × (get previous_file f ≡ z) × D d

module _ (D : Dict (Dict Bytes) → Type 0) (h c p : Option Text) (sequence : Text) where
  abbrev new : Option Text
  new = some (line sequence)

  -- An error leaves the current pointer, and the highest one as it was or as it would be.
  abbrev pub Interrupted : Disk → Type 0
  Interrupted d =
      HoldsText current_file c d
      × D d.directories
      × (HoldsText highest_file h d ⊎ HoldsText highest_file new d)

  ButHighest : Dict Text → Dict (Dict Bytes) → Type 0
  ButHighest f d = (get current_file f ≡ c) × (get previous_file f ≡ p) × D d

  ButPrevious : Dict Text → Dict (Dict Bytes) → Type 0
  ButPrevious f d = (get highest_file f ≡ new) × (get current_file f ≡ c) × D d

  ButCurrent : Option Text → Dict Text → Dict (Dict Bytes) → Type 0
  ButCurrent z f d = (get highest_file f ≡ new) × (get previous_file f ≡ z) × D d

  write_highest-Ends :
      (w : World)
      → Knows (Pointed D h c p) w
      → Ends
          (λ u w'. Knows (Pointed D new c p) w')
          (λ w'. Interrupted w'.disk)
          (must (write_pointer highest_file sequence) install_failed w)
  unfolding Holds ButHighest text_eq
  write_highest-Ends w ((eh, ec, ep, d), r) =
      weaken-Ends _ _ _ _ _
        (write-Ends ButHighest highest_file h sequence install_failed refl
          (λ f f' dirs same j. (same current_file refl ∙ j.0, same previous_file refl ∙ j.1, j.2))
          (λ f f' dirs same j. (same current_file refl ∙ j.0, same previous_file refl ∙ j.1, j.2)) w
          eh ((ec, ep, d), r))
        (λ u w' q. ((q.0, q.1.0.0, q.1.0.1, q.1.0.2), q.1.1)) (λ w' q. (q.1.0.0, q.1.0.2, inl q.0))

  write_previous-Ends :
      (current : Text) (w : World)
      → Knows (Pointed D new c p) w
      → Ends
          (λ u w'. Knows (Pointed D new c (some (line current))) w')
          (λ w'. Interrupted w'.disk)
          (must (write_pointer previous_file current) install_failed w)
  unfolding Holds ButPrevious text_eq
  write_previous-Ends current w ((eh, ec, ep, d), r) =
      weaken-Ends _ _ _ _ _
        (write-Ends ButPrevious previous_file p current install_failed refl
          (λ f f' dirs same j. (same highest_file refl ∙ j.0, same current_file refl ∙ j.1, j.2))
          (λ f f' dirs same j. (same highest_file refl ∙ j.0, same current_file refl ∙ j.1, j.2)) w
          ep ((eh, ec, d), r))
        (λ u w' q. ((q.1.0.0, q.1.0.1, q.0, q.1.0.2), q.1.1))
        (λ w' q. (q.1.0.1, q.1.0.2, inr q.1.0.0))

  write_current-Ends :
      (z : Option Text) (w : World)
      → Knows (Pointed D new c z) w
      → Ends
          (λ u w'. Knows (Pointed D new new z) w')
          (λ w'. Interrupted w'.disk)
          (must (write_pointer current_file sequence) install_failed w)
  unfolding Holds ButCurrent text_eq
  write_current-Ends z w ((eh, ec, ep, d), r) =
      weaken-Ends _ _ _ _ _
        (write-Ends (ButCurrent z) current_file c sequence install_failed refl
          (λ f f' dirs same j. (same highest_file refl ∙ j.0, same previous_file refl ∙ j.1, j.2))
          (λ f f' dirs same j. (same highest_file refl ∙ j.0, same previous_file refl ∙ j.1, j.2)) w
          ec ((eh, ep, d), r))
        (λ u w' q. ((q.1.0.0, q.0, q.1.0.1, q.1.0.2), q.1.1)) (λ w' q. (q.0, q.1.0.2, inr q.1.0.0))

  keep_previous-Ends :
      (o : Option Text) (w : World)
      → Knows (Pointed D new c p) w
      → Ends
          (λ u w'. Knows (Pointed D new c (previous_after sequence o p)) w')
          (λ w'. Interrupted w'.disk)
          (keep_previous sequence o w)
  unfolding keep_previous previous_after Ends
  keep_previous-Ends none w k = k
  keep_previous-Ends (some current) w k = elim (Bool-cases (text_eq current sequence)) [
    | inl t ↦ rw t k
    | inr f ↦ rw f (write_previous-Ends current w k)
  ]

  -- The pointers after `Install` has written them, and after a failure on the way.
  pub point_to-Ends :
      (w : World)
      → Knows (Pointed D h c p) w
      → Ends
          (λ u w'. Knows (Pointed D new new (previous_after sequence (sequence_text c) p)) w')
          (λ w'. Interrupted w'.disk)
          (point_to sequence w)
  unfolding point_to
  point_to-Ends w k =
      next-Ends _ _ _ _ _ _ (write_highest-Ends w k) (λ w' i. i)
        (λ u w1 k1.
          next-Ends _ _ _ _ _ _
            (read_pointer-Ends (Pointed D new c p) current_file c (λ f d q. q.1) w1 k1)
            pointed_Interrupted
            (λ o w2 k2.
              next-Ends _ _ _ _ _ _ (kept w2 o k2) (λ w' i. i)
                (λ u w3 k3.
                  write_current-Ends (previous_after sequence (sequence_text c) p) w3 k3)))
    where
      pointed_Interrupted : (w' : World) → Knows (Pointed D new c p) w' → Interrupted w'.disk
      pointed_Interrupted w' k' =
          let q : Pointed D new c p w'.disk.files w'.disk.directories × Readable w'.read_faults =
            unfold Holds in k' in
          (q.0.1, q.0.3, inr q.0.0)

      kept :
          (w2 : World) (o : Option Text)
          → (o ≡ sequence_text c) × Knows (Pointed D new c p) w2
          → Ends
              (λ u w'. Knows (Pointed D new c (previous_after sequence (sequence_text c) p)) w')
              (λ w'. Interrupted w'.disk)
              (keep_previous sequence o w2)
      kept w2 o (e, k2) = rw (← e) (keep_previous-Ends o w2 k2)
