-- ===== src/Inventory/Ladder/Removals.antt =====
-- internal/inventory/ladder.go: the rows of `classify` and the removals of a delta.
use ssc_init.Base.{
  Any-left, Any-right, ◌≡◌, ◌≢◌, refl, sym, ap, ◌∙◌, ◌⊎◌, inl, inr, false, Bool-cases, Option,
  Option-cases, none, some, List, [], ◌∷◌, ◌++◌, map, arith, All, Any, is_empty, Text, Dict, get,
  get_all, or_empty, values, get-values, get-All, Member, sort_by, sort_by-Any,
}
use ssc_init.Model.{Asset, Inventory, Change}
use ssc_init.Inventory.AssetId.{parse_asset_id}
use ssc_init.Inventory.Ladder.{
  State, start, change_of, row_for, asset_changes, record_changes, pair_additions, removal_rows,
  all_removals, compare_rows, collect, classify, wins,
}
use ssc_init.Inventory.Row.{
  changed_bytes, unverified, upgraded, gone, Row, AssetChange, index_assets, index_observations,
  index_evidence_assets, index_evidence_status,
}
use ssc_init.Inventory.Ladder.Added.{
  identity_of, Removes, removals_of, additions_of, removal-Member, collected,
  asset_changes-IsUnique,
}
use ssc_init.Inventory.Ladder.Shown.{IsObserved}
use ssc_init.Inventory.Ladder.Pairing.{IsSound, asset_changes-IsSound, record_changes-IsObserved}
use ssc_init.Inventory.Ladder.Settled.{held, upgrade, IsPaired, IsSettled, pair_additions-IsSettled}

module _ (assets : Dict Asset) where
  removal_rows-Any :
      (P : Row → Type 0) (c : AssetChange) (cs : List AssetChange)
      → P (row_for assets c.id gone c.version [])
      → Member c cs
      → Any P (removal_rows assets cs)
  unfolding removal_rows
  removal_rows-Any P c [] p m = elim m [ ]
  removal_rows-Any P c (x ∷ cs) p (inl e) = inl (rw (← e) p)
  removal_rows-Any P c (x ∷ cs) p (inr m) = inr (removal_rows-Any P c cs p m)

  all_removals-Any :
      (P : Row → Type 0) (c : AssetChange) (css : List (List AssetChange))
      → P (row_for assets c.id gone c.version [])
      → Any (Member c) css
      → Any P (all_removals assets css)
  unfolding all_removals
  all_removals-Any P c [] p m = elim m [ ]
  all_removals-Any P c (cs ∷ rest) p (inl m) =
      Any-left P (removal_rows assets cs) (all_removals assets rest) (removal_rows-Any P c cs p m)
  all_removals-Any P c (cs ∷ rest) p (inr m) =
      Any-right P (removal_rows assets cs) (all_removals assets rest)
        (all_removals-Any P c rest p m)

get_all-values :
    (c : AssetChange) (key : Text) (d : Dict (List AssetChange))
    → Member c (get_all key d)
    → Any (Member c) (values d)
get_all-values c key d m = held (get key d) refl m
  where
    held :
        (o : Option (List AssetChange))
        → get key d ≡ o
        → Member c (or_empty o)
        → Any (Member c) (values d)
    held none e m = elim m [ ]
    held (some cs) e m = get-values (Member c) key cs d e m

-- The version that an asset ID ends with, if it has one.
abbrev pub version_of : Text → Text
version_of id = (parse_asset_id id).version

-- The row of a removed asset.
abbrev pub IsRemovalRow : Text → Row → Type 0
IsRemovalRow id row = (row.key ≡ id) × (row.rung ≡ gone) × (row.from ≡ version_of id)

-- The row of the asset that takes the place of another one: UPGRADED with both versions, or the row of
-- a higher rung that the asset has for a change of its bytes.
abbrev pub IsUpgradeRow : Text → Text → Row → Type 0
IsUpgradeRow id next row =
    (row.key ≡ next)
    × (((row.rung ≡ upgraded) × (row.from ≡ version_of id) × (row.to ≡ version_of next))
        ⊎ (row.rung ≡ changed_bytes)
        ⊎ (row.rung ≡ unverified))

-- One addition takes the place of one removal: of the assets that differ in the version only, the
-- delta removes just this one and adds just one other, and both IDs have a version.
abbrev pub IsTransition : Text → Text → List Change → Type 0
IsTransition id next changes =
    (removals_of (identity_of id) changes ≡ id ∷ [])
    × (additions_of (identity_of id) changes ≡ next ∷ [])
    × (version_of id ≢ [])
    × (version_of next ≢ [])

-- The rows report a removal.
abbrev pub IsReported : Text → List Change → List Row → Type 0
IsReported id changes rows =
    Any (IsRemovalRow id) rows
    ⊎ ((next : Text) × IsTransition id next changes × Any (IsUpgradeRow id next) rows)

map_singleton :
    (ids : List Text) (c : AssetChange)
    → map change_of ids ≡ c ∷ []
    → (id : Text) × (ids ≡ id ∷ []) × (change_of id ≡ c)
map_singleton [] c h = cc
map_singleton (id ∷ []) c h = (id, refl, ground arith)
map_singleton (id ∷ other ∷ ids) c h = cc

ne_nil : (t : Text) → is_empty t ≡ false → t ≢ []
ne_nil [] h = cc
ne_nil (c ∷ cs) h = λ e. cc

module _ (assets : Dict Asset) where
  -- The row that is held once an upgrade is noted.
  upgrade-IsUpgradeRow :
      (id next : Text) (best : Dict Row)
      → All IsObserved best
      → (row : Row) × (held (upgrade assets (change_of next) (change_of id)) (get next best)
          ≡ some row)
        × IsUpgradeRow id next row
  unfolding row_for wins
  upgrade-IsUpgradeRow id next best h = elim (Option-cases (get next best)) [
    | inl e ↦
        (upgrade assets (change_of next) (change_of id), rw e refl, (refl, inl (refl, refl, refl)))
    | inr (row, e) ↦
        let observed : IsObserved (next, row) = get-All IsObserved next row best h e in
        elim (Bool-cases (wins (upgrade assets (change_of next) (change_of id)) (some row))) [
          | inl t ↦ (
            upgrade assets (change_of next) (change_of id),
            rw e (rw t refl),
            (refl, inl (refl, refl, refl)),
          )
          | inr f ↦ (row, rw e (rw f refl), (observed.0, inr observed.1))
        ]
  ]

  -- What is paired is a transition of the delta, and has its row.
  IsPaired-IsReported :
      (id : Text) (changes : List Change) (best rows : Dict Row) (rest : List Row)
      (additions removals : Dict (List AssetChange)) (t : Dict (List AssetChange))
      → All IsObserved best
      → get_all (identity_of id) removals ≡ map change_of (removals_of (identity_of id) changes)
      → get_all (identity_of id) additions ≡ map change_of (additions_of (identity_of id) changes)
      → IsPaired assets id additions (best, removals) (rows, t)
      → (next : Text) × IsTransition id next changes
        × Any (IsUpgradeRow id next) (values rows ++ rest)
  IsPaired-IsReported id changes best rows rest additions removals t h r d (a, one, only, v, w, e) =
      let (next, added, same) =
        map_singleton (additions_of (identity_of id) changes) a (sym d ∙ one) in
      let (other, removed, equal) =
        map_singleton (removals_of (identity_of id) changes) (change_of id) (sym r ∙ only) in
      let (row, is_held, upgrades) = upgrade-IsUpgradeRow id next best h in
      let alone : other ≡ id = ap (λ (c : AssetChange). c.id) equal in
      let shown : get next rows ≡ some row = (rw (← same) at e) ∙ is_held in
      (
        next,
        (
          removed ∙ ap (λ x. x ∷ []) alone,
          added,
          ne_nil (version_of id) w,
          ne_nil (version_of next) (rw (← same) at v),
        ),
        Any-left (IsUpgradeRow id next) (values rows) rest
            (get-values (IsUpgradeRow id next) next row rows shown upgrades),
      )

-- For every asset that a delta removes there is a row REMOVED with its ID and its version. The one
-- exception is a transition: where, of the assets that differ from it in the version only, the delta
-- removes no other, and adds exactly one, and both IDs have a version, there is a row of the added
-- asset, UPGRADED with both versions, CHANGED or UNVERIFIED.
pub classify_reports_removals :
    (inventory : Inventory) (changes : List Change) (id : Text)
    → Any (Removes id) changes
    → IsReported id changes (classify inventory changes)
unfolding classify collect
classify_reports_removals inventory changes id removal =
    reported (pair_additions assets s.added (best, s.removed)) (
      pair_additions-IsSettled assets id s.added (best, s.removed) sound.1
        (asset_changes-IsUnique assets start changes tt)
        (rw found.0 (removal-Member id changes removal)))
  where
    oa : Dict Text
    oa = index_observations [] inventory.observations

    ea : Dict Text
    ea = index_evidence_assets oa [] inventory.evidence

    status : Dict Text
    status = index_evidence_status [] inventory.evidence

    assets : Dict Asset
    assets = index_assets [] inventory.assets

    s : State
    s = asset_changes assets start changes

    sound : IsSound assets s
    sound = asset_changes-IsSound assets start changes (tt, tt)

    best : Dict Row
    best = record_changes assets oa ea status s.added_assets s.best changes

    observed : All IsObserved best
    observed = record_changes-IsObserved assets oa ea status s.added_assets s.best changes sound.0

    found :
        (get_all (identity_of id) s.removed ≡ map change_of (removals_of (identity_of id) changes))
        × (get_all (identity_of id) s.added ≡ map change_of (additions_of (identity_of id) changes))
    found = collected assets (identity_of id) changes

    reported :
        (t : Dict Row × Dict (List AssetChange))
        → IsSettled assets id s.added (best, s.removed) t
        → IsReported id changes
            (sort_by compare_rows (values t.0 ++ all_removals assets (values t.1)))
    reported (rows, removals) (inl m) = inl (
        sort_by-Any compare_rows (IsRemovalRow id)
          (values rows ++ all_removals assets (values removals))
          (Any-right (IsRemovalRow id) (values rows) (all_removals assets (values removals)) (
            all_removals-Any assets (IsRemovalRow id) (change_of id) (values removals)
              (unfold row_for in (refl, refl, refl))
              (get_all-values (change_of id) (identity_of id) removals m))))
    reported (rows, removals) (inr p) =
        let (next, transition, shown) =
          IsPaired-IsReported assets id changes best rows (all_removals assets (values removals))
            s.added s.removed removals observed found.0 found.1 p in
        inr (
          next,
          transition,
          sort_by-Any compare_rows (IsUpgradeRow id next)
              (values rows ++ all_removals assets (values removals)) shown,
        )
