-- ===== src/Inventory/Ladder/Pairing.antt =====
-- internal/inventory/ladder.go: the loop of `classify` that pairs additions with removals.
use ssc_init.Base.{
  ◌≡◌, refl, sym, ◌∙◌, ◌⊎◌, inl, inr, Bool, true, false, Bool-cases, Option, none, some, List, [],
  ◌∷◌, arith, All, is_empty, if◌then◌else◌, Text, text_eq, text_eq→eq, text_eq_iff, Dict, get,
  get_all, remove, get-remove,
}
use ssc_init.Model.{Asset, Change, ChangeKind, added, removed, changed}
use ssc_init.Inventory.Ladder.{
  State, row_for, is_asset, is_gap, note, note_asset, asset_changes, note_record, record_changes,
  subject_of, transition, note_additions, pair_additions,
}
use ssc_init.Inventory.Row.{new, changed_bytes, unverified, upgraded, Row, AssetChange}
use ssc_init.Inventory.Ladder.Added.{identity_of}
use ssc_init.Inventory.Ladder.Shown.{
  IsGrouped, add-IsGrouped, IsObserved, note-IsObserved, note-frame,
}

-- Assets of different identities have different IDs.
other_asset :
    (identity id other : Text)
    → identity_of id ≡ identity
    → text_eq identity (identity_of other) ≡ false
    → text_eq id other ≡ false
other_asset identity id other e f = elim (Bool-cases (text_eq id other)) [
  | inr n ↦ n
  | inl t ↦
      let same : identity ≡ identity_of other = rw (text_eq→eq id other t) at (sym e) in
      ground (arith, text_eq_iff identity (identity_of other))
]

-- A transition has one addition and one removal, both with a version.
pub transition-cases :
    (additions removals : List AssetChange) (a r : AssetChange)
    → transition additions removals ≡ some (a, r)
    → (additions ≡ a ∷ [])
      × (removals ≡ r ∷ [])
      × (is_empty a.version ≡ false)
      × (is_empty r.version ≡ false)
unfolding transition
transition-cases [] removals a r e = cc
transition-cases (x ∷ []) [] a r e = cc
transition-cases (x ∷ []) (y ∷ []) a r e = (
  let same : x ≡ a = ground arith in rw same refl,
  let same : y ≡ r = ground arith in rw same refl,
  let same : x ≡ a = ground arith in rw (← same) (ground arith),
  let same : y ≡ r = ground arith in rw (← same) (ground arith),
)
transition-cases (x ∷ []) (y ∷ z ∷ zs) a r e = cc
transition-cases (x ∷ y ∷ ys) removals a r e = cc

module _ (assets : Dict Asset) where
  note_asset-IsObserved :
      (s : State) (k : ChangeKind) (id : Text)
      → All IsObserved s.best
      → All IsObserved (note_asset assets s k id).best
  unfolding note_asset row_for
  note_asset-IsObserved s added id h = h
  note_asset-IsObserved s removed id h = h
  note_asset-IsObserved s changed id h = note-IsObserved _ s.best (refl, inl refl) h

  note_asset-IsGrouped :
      (s : State) (k : ChangeKind) (id : Text)
      → All IsGrouped s.added
      → All IsGrouped (note_asset assets s k id).added
  unfolding note_asset
  note_asset-IsGrouped s added id h = add-IsGrouped id s.added h
  note_asset-IsGrouped s removed id h = h
  note_asset-IsGrouped s changed id h = h

  -- The rows are of changed bytes, and the additions are held under their identities.
  abbrev pub IsSound : State → Type 0
  IsSound s = All IsObserved s.best × All IsGrouped s.added

  pub asset_changes-IsSound :
      (s : State) (changes : List Change) → IsSound s → IsSound (asset_changes assets s changes)
  unfolding asset_changes
  asset_changes-IsSound s [] h = h
  asset_changes-IsSound s (c ∷ rest) h =
      asset_changes-IsSound
        (if is_asset c.entity then note_asset assets s c.kind c.entity_id else s) rest
        (either (is_asset c.entity))
    where
      either : (b : Bool) → IsSound (if b then note_asset assets s c.kind c.entity_id else s)
      either true = (
        note_asset-IsObserved s c.kind c.entity_id h.0,
        note_asset-IsGrouped s c.kind c.entity_id h.1,
      )
      either false = h

  note_record-IsObserved :
      (fresh : List Text) (best : Dict Row) (o : Option (Text × Text))
      → All IsObserved best
      → All IsObserved (note_record assets fresh best o)
  unfolding note_record row_for
  note_record-IsObserved fresh best none h = h
  note_record-IsObserved fresh best (some (id, status)) h =
      either _ _ (note-IsObserved _ best (refl, rung (is_gap status)) h)
    where
      either : (b : Bool) (d : Dict Row) → All IsObserved d → All IsObserved (if b then best else d)
      either true d k = h
      either false d k = k

      rung :
          (b : Bool)
          → ((if b then unverified else changed_bytes) ≡ changed_bytes)
            ⊎ ((if b then unverified else changed_bytes) ≡ unverified)
      rung true = inr refl
      rung false = inl refl

  pub record_changes-IsObserved :
      (oa ea status : Dict Text) (fresh : List Text) (best : Dict Row) (changes : List Change)
      → All IsObserved best
      → All IsObserved (record_changes assets oa ea status fresh best changes)
  unfolding record_changes
  record_changes-IsObserved oa ea status fresh best [] h = h
  record_changes-IsObserved oa ea status fresh best (c ∷ rest) h =
      record_changes-IsObserved oa ea status fresh
        (note_record assets fresh best (subject_of oa ea status c)) rest
        (note_record-IsObserved fresh best (subject_of oa ea status c) h)

  -- The rows of one identity leave those of another alone.
  note_additions-frame :
      (identity id : Text) (best : Dict Row) (cs : List AssetChange)
      → IsGrouped (identity, cs)
      → text_eq identity (identity_of id) ≡ false
      → get id (note_additions assets best cs) ≡ get id best
  unfolding note_additions
  note_additions-frame identity id best [] g f = refl
  note_additions-frame identity id best (c ∷ cs) g f =
      note_additions-frame identity id (note c.id (row_for assets c.id new [] []) best) cs g.1 f
      ∙ note-frame c.id id (row_for assets c.id new [] []) best (other_asset identity c.id id g.0 f)

  -- The state behind one entry of the additions.
  abbrev pub paired :
      Text × List AssetChange
      → Dict Row × Dict (List AssetChange)
      → Option (AssetChange × AssetChange)
      → Dict Row × Dict (List AssetChange)
  paired entry s o = elim o [
    | some (a, r) ↦
        (note a.id (row_for assets a.id upgraded r.version a.version) s.0, remove entry.0 s.1)
    | none ↦ (note_additions assets s.0 entry.1, s.1)
  ]

  -- An entry of another identity changes neither the row of an asset nor the removals of its
  -- identity.
  pub paired-frame :
      (id : Text) (entry : Text × List AssetChange) (s : Dict Row × Dict (List AssetChange))
      (o : Option (AssetChange × AssetChange))
      → IsGrouped entry
      → transition entry.1 (get_all entry.0 s.1) ≡ o
      → text_eq entry.0 (identity_of id) ≡ false
      → (get id (paired entry s o).0 ≡ get id s.0)
        × (get_all (identity_of id) (paired entry s o).1 ≡ get_all (identity_of id) s.1)
  paired-frame id entry s none g e f = (note_additions-frame entry.0 id s.0 entry.1 g f, refl)
  paired-frame id entry s (some (a, r)) g e f = (
    note-frame a.id id (row_for assets a.id upgraded r.version a.version) s.0 (
        other_asset entry.0 a.id id
          (let alone = (transition-cases entry.1 (get_all entry.0 s.1) a r e).0 in
            (rw alone at g).0)
          f),
    rw (get-remove entry.0 (identity_of id) s.1 f) refl,
  )

  pub pair_additions-frame :
      (id : Text) (entries : Dict (List AssetChange)) (s : Dict Row × Dict (List AssetChange))
      → All IsGrouped entries
      → All (λ (entry : Text × List AssetChange). text_eq entry.0 (identity_of id) ≡ false) entries
      → (get id (pair_additions assets entries s).0 ≡ get id s.0)
        × (get_all (identity_of id) (pair_additions assets entries s).1
            ≡ get_all (identity_of id) s.1)
  unfolding pair_additions
  pair_additions-frame id [] s g f = (refl, refl)
  pair_additions-frame id (entry ∷ rest) s g f =
      let o = transition entry.1 (get_all entry.0 s.1) in
      let now = paired-frame id entry s o g.0 refl f.0 in
      let later = pair_additions-frame id rest (paired entry s o) g.1 f.1 in
      (later.0 ∙ now.0, later.1 ∙ now.1)
