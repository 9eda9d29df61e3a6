-- ===== src/Inventory/Ladder.antt =====
-- internal/inventory/ladder.go: `classify`, the severity ladder of a delta.
pub mod Order
pub mod Added
mod Shown
mod Pairing
mod Settled
pub mod Removals
use ssc_init.Base.{
  ℕ, Ordering, Bool, true, false, not, ◌&&◌, ◌||◌, Option, none, some, List, [], ◌∷◌, ◌++◌, any,
  is_empty, ltb, ◌==◌, if◌then◌else◌, ◌then◌, compare_uint, Text, codes, text_eq, compare_text,
  Dict, get, put, add, get_all, remove, values, sort_by, or_empty,
}
use ssc_init.Model.{
  Asset, Observation, ContentEvidence, EvidenceStatus, evidence_complete, evidence_unsupported,
  Inventory, Change, ChangeKind, added, removed, changed, ChangeEntity, asset, observation,
  evidence,
}
use ssc_init.Inventory.AssetId.{AssetId, parse_asset_id, Display, display_for}
use ssc_init.Inventory.Row.{
  AssetChange, Row, Rung, changed_bytes, evidence_asset, gone, identity_key, index_assets,
  index_evidence_assets, index_evidence_status, index_observations, label, new, ordinal, text_at,
  unverified, upgraded,
}

-- The maps that the loops over the changes fill.
pub record State : Type 0 where
  pub added : Dict (List AssetChange)
  pub removed : Dict (List AssetChange)
  pub added_assets : List Text
  pub best : Dict Row

abbrev pub start : State
start = record { added = []; removed = []; added_assets = []; best = [] }

-- Whether a row takes the place of the one that is held.
unfoldable pub wins : Row → Option Row → Bool
wins row none = true
wins row (some existing) = ltb (ordinal row.rung) (ordinal existing.rung)

unfoldable pub note : Text → Row → Dict Row → Dict Row
note asset_id row best = if wins row (get asset_id best) then put asset_id row best else best

unfoldable pub row_for : Dict Asset → Text → Rung → Text → Text → Row
row_for assets id rung from to =
    let d = display_for assets id in
    record {
      key = id;
      rung = rung;
      kind = d.kind;
      name = d.name;
      host = d.host;
      from = from;
      to = to;
    }

abbrev pub change_of : Text → AssetChange
change_of id = record { id = id; version = (parse_asset_id id).version }

-- One asset-level change.
unfoldable pub note_asset : Dict Asset → State → ChangeKind → Text → State
note_asset assets s added id = record s {
  added = add (identity_key (parse_asset_id id)) (change_of id) s.added;
  added_assets = id ∷ s.added_assets;
}
note_asset assets s removed id = record s {
  removed = add (identity_key (parse_asset_id id)) (change_of id) s.removed;
}
note_asset assets s changed id = record s {
  best = note id (row_for assets id changed_bytes [] []) s.best;
}

abbrev pub is_asset : ChangeEntity → Bool
is_asset asset = true
is_asset _ = false

unfoldable pub asset_changes : Dict Asset → State → List Change → State
asset_changes assets s [] = s
asset_changes assets s (c ∷ rest) =
    asset_changes assets (if is_asset c.entity then note_asset assets s c.kind c.entity_id else s)
      rest

-- The asset and the status that a record-level change speaks of; `none` where it is skipped.
unfoldable pub subject_of :
    Dict Text → Dict Text → Dict Text → Change → Option (Text × EvidenceStatus)
subject_of oa ea status c = by_entity c.entity c.kind
  where
    by_entity : ChangeEntity → ChangeKind → Option (Text × EvidenceStatus)
    by_entity asset k = none
    by_entity observation removed = none
    by_entity observation _ = some (text_at c.entity_id oa, evidence_complete)
    by_entity evidence removed = none
    by_entity evidence _ = some (text_at c.entity_id ea, text_at c.entity_id status)

unfoldable pub is_gap : EvidenceStatus → Bool
is_gap status = not (text_eq status evidence_complete) && not (text_eq status evidence_unsupported)

-- One change of an observation or of evidence.
unfoldable pub note_record :
    Dict Asset → List Text → Dict Row → Option (Text × EvidenceStatus) → Dict Row
note_record assets fresh best none = best
note_record assets fresh best (some (id, status)) =
    if is_empty id || not (is_gap status) && any (text_eq id) fresh
    then best
    else note id (row_for assets id (if is_gap status then unverified else changed_bytes) [] [])
        best

unfoldable pub record_changes :
    Dict Asset → Dict Text → Dict Text → Dict Text → List Text → Dict Row → List Change → Dict Row
record_changes assets oa ea status fresh best [] = best
record_changes assets oa ea status fresh best (c ∷ rest) =
    record_changes assets oa ea status fresh
      (note_record assets fresh best (subject_of oa ea status c)) rest

-- One addition against one removal, both with a version.
unfoldable pub transition : List AssetChange → List AssetChange → Option (AssetChange × AssetChange)
transition (a ∷ []) (r ∷ []) =
    if not (is_empty a.version) && not (is_empty r.version) then some (a, r) else none
transition _ _ = none

unfoldable pub note_additions : Dict Asset → Dict Row → List AssetChange → Dict Row
note_additions assets best [] = best
note_additions assets best (a ∷ rest) =
    note_additions assets (note a.id (row_for assets a.id new [] []) best) rest

-- The loop over the identities of the added assets.
unfoldable pub pair_additions :
    Dict Asset
    → Dict (List AssetChange)
    → Dict Row × Dict (List AssetChange)
    → Dict Row × Dict (List AssetChange)
pair_additions assets [] s = s
pair_additions assets ((identity, additions) ∷ rest) (best, removals) =
    pair_additions assets rest (elim (transition additions (get_all identity removals)) [
      | some (a, r) ↦ (
        note a.id (row_for assets a.id upgraded r.version a.version) best,
        remove identity removals,
      )
      | none ↦ (note_additions assets best additions, removals)
    ])

unfoldable pub removal_rows : Dict Asset → List AssetChange → List Row
removal_rows assets [] = []
removal_rows assets (r ∷ rest) = row_for assets r.id gone r.version [] ∷ removal_rows assets rest

unfoldable pub all_removals : Dict Asset → List (List AssetChange) → List Row
all_removals assets [] = []
all_removals assets (rs ∷ rest) = removal_rows assets rs ++ all_removals assets rest

-- The order of the rows.
unfoldable pub compare_rows : Row → Row → Ordering
compare_rows l r =
    compare_uint (ordinal l.rung) (ordinal r.rung)
    then compare_text l.kind r.kind
    then compare_text l.name r.name
    then compare_text l.host r.host
    then compare_text l.key r.key

-- The rows before they are sorted.
unfoldable pub collect : Inventory → List Change → List Row
collect inventory changes =
    let oa = index_observations [] inventory.observations in
    let ea = index_evidence_assets oa [] inventory.evidence in
    let status = index_evidence_status [] inventory.evidence in
    let assets = index_assets [] inventory.assets in
    let s = asset_changes assets start changes in
    let best = record_changes assets oa ea status s.added_assets s.best changes in
    let (rows, removals) = pair_additions assets s.added (best, s.removed) in
    values rows ++ all_removals assets (values removals)

unfoldable pub classify : Inventory → List Change → List Row
classify inventory changes = sort_by compare_rows (collect inventory changes)
