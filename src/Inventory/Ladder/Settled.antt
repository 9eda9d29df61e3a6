-- ===== src/Inventory/Ladder/Settled.antt =====
-- internal/inventory/ladder.go: what the pairing of additions with removals makes of one removal.
use ssc_init.Base.{
  ◌≡◌, refl, sym, ap, ◌∙◌, ◌⊎◌, inl, inr, false, Bool-cases, Option, none, some, List, [], ◌∷◌, All,
  is_empty, if◌then◌else◌, Text, text_eq, text_eq→eq, text_eq_refl, Dict, get, get_all, IsUnique,
  absent-All, Member,
}
use ssc_init.Model.{Asset}
use ssc_init.Inventory.Ladder.{change_of, row_for, wins, transition, pair_additions}
use ssc_init.Inventory.Row.{upgraded, Row, AssetChange}
use ssc_init.Inventory.Ladder.Added.{identity_of}
use ssc_init.Inventory.Ladder.Shown.{IsGrouped, get_all-IsGrouped, note_self}
use ssc_init.Inventory.Ladder.Pairing.{transition-cases, paired, paired-frame, pair_additions-frame}

-- The row that a map holds once another one is noted.
abbrev pub held : Row → Option Row → Option Row
held row o = if wins row o then some row else o

module _ (assets : Dict Asset) where
  abbrev pub upgrade : AssetChange → AssetChange → Row
  upgrade a r = row_for assets a.id upgraded r.version a.version

  -- The removal is the only one of its identity, of which there is one addition, and the row of the
  -- added asset is noted.
  abbrev pub IsPaired :
      Text
      → Dict (List AssetChange)
      → Dict Row × Dict (List AssetChange)
      → Dict Row × Dict (List AssetChange)
      → Type 0
  IsPaired id entries s t =
      (a : AssetChange) × (get_all (identity_of id) entries ≡ a ∷ [])
      × (get_all (identity_of id) s.1 ≡ change_of id ∷ [])
      × (is_empty a.version ≡ false)
      × (is_empty (change_of id).version ≡ false)
      × (get a.id t.0 ≡ held (upgrade a (change_of id)) (get a.id s.0))

  -- The removal is left to report, or it is paired.
  abbrev pub IsSettled :
      Text
      → Dict (List AssetChange)
      → Dict Row × Dict (List AssetChange)
      → Dict Row × Dict (List AssetChange)
      → Type 0
  IsSettled id entries s t =
      Member (change_of id) (get_all (identity_of id) t.1) ⊎ IsPaired id entries s t

  Member-singleton : (c r : AssetChange) → Member c (r ∷ []) → c ≡ r
  Member-singleton c r (inl e) = e
  Member-singleton c r (inr m) = elim m [ ]

  -- The entry of the removal's own identity.
  entry-IsSettled :
      (id : Text) (additions : List AssetChange) (rest : Dict (List AssetChange))
      (s : Dict Row × Dict (List AssetChange)) (o : Option (AssetChange × AssetChange))
      → transition additions (get_all (identity_of id) s.1) ≡ o
      → All IsGrouped ((identity_of id, additions) ∷ rest)
      → get (identity_of id) rest ≡ none
      → Member (change_of id) (get_all (identity_of id) s.1)
      → IsSettled id
          ((identity_of id, additions) ∷ rest)
          s
          (pair_additions assets rest (paired assets (identity_of id, additions) s o))
  unfolding get
  entry-IsSettled id additions rest s none e g u m = inl (
      rw
        (pair_additions-frame assets id rest (paired assets (identity_of id, additions) s none) g.1
          (absent-All (identity_of id) rest u)).1
        m)
  entry-IsSettled id additions rest s (some (a, r)) e g u m =
      let c = transition-cases additions (get_all (identity_of id) s.1) a r e in
      let same : change_of id ≡ r = Member-singleton (change_of id) r (rw c.1 at m) in
      let group : IsGrouped (identity_of id, a ∷ []) = rw c.0 at g.0 in
      let later =
        pair_additions-frame assets a.id rest
          (paired assets (identity_of id, additions) s (some (a, r))) g.1
          (absent-All (identity_of a.id) rest (rw group.0 u)) in
      inr (
        a,
        rw (text_eq_refl (identity_of id)) c.0,
        c.1 ∙ ap (λ x. x ∷ []) (sym same),
        c.2,
        rw (ap (λ (x : AssetChange). x.version) same) c.3,
        later.0
            ∙ note_self a.id (upgrade a r) s.0
            ∙ ap (λ x. held (upgrade a x) (get a.id s.0)) (sym same),
      )

  -- An entry of another identity leaves it to the entries that follow.
  later-IsSettled :
      (id : Text) (entry : Text × List AssetChange) (rest : Dict (List AssetChange))
      (s : Dict Row × Dict (List AssetChange)) (t : Dict Row × Dict (List AssetChange))
      → All IsGrouped (entry ∷ rest)
      → text_eq entry.0 (identity_of id) ≡ false
      → IsSettled id rest (paired assets entry s (transition entry.1 (get_all entry.0 s.1))) t
      → IsSettled id (entry ∷ rest) s t
  unfolding get
  later-IsSettled id entry rest s t g f (inl m) = inl m
  later-IsSettled id entry rest s t g f (inr (a, one, only, v, w, row)) =
      let o = transition entry.1 (get_all entry.0 s.1) in
      let group : IsGrouped (identity_of id, a ∷ []) =
        rw one at (get_all-IsGrouped (identity_of id) rest g.1) in
      inr (
        a,
        rw f one,
        sym (paired-frame assets id entry s o g.0 refl f).1 ∙ only,
        v,
        w,
        row
            ∙ ap (held (upgrade a (change_of id)))
                (paired-frame assets a.id entry s o g.0 refl (rw group.0 f)).0,
      )

  -- Every removal is left to report, or paired.
  pub pair_additions-IsSettled :
      (id : Text) (entries : Dict (List AssetChange)) (s : Dict Row × Dict (List AssetChange))
      → All IsGrouped entries
      → IsUnique entries
      → Member (change_of id) (get_all (identity_of id) s.1)
      → IsSettled id entries s (pair_additions assets entries s)
  unfolding pair_additions
  pair_additions-IsSettled id [] s g u m = inl m
  pair_additions-IsSettled id ((key, additions) ∷ rest) s g u m =
      elim (Bool-cases (text_eq key (identity_of id))) [
        | inl t ↦
            let same : key ≡ identity_of id = text_eq→eq key (identity_of id) t in
            rw same (
              entry-IsSettled id additions rest s
                (transition additions (get_all (identity_of id) s.1)) refl (rw same at g)
                (rw same at u.0) m)
        | inr f ↦
            let o = transition additions (get_all key s.1) in
            let now = paired-frame assets id (key, additions) s o g.0 refl f in
            later-IsSettled id (key, additions) rest s
              (pair_additions assets rest (paired assets (key, additions) s o)) g f
              (pair_additions-IsSettled id rest (paired assets (key, additions) s o) g.1 u.1
                (rw now.1 m))
      ]
