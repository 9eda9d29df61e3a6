-- ===== src/Inventory/Row.antt =====
-- internal/inventory/ladder.go: rungs, rows, and the maps that `classify` reads.
use ssc_init.Base.{
  ℕ, none, some, List, [], ◌∷◌, ◌++◌, is_empty, if◌then◌else◌, ◌then◌, Text, codes, Dict, get, put,
}
use ssc_init.Model.{Asset, Observation, ContentEvidence}
use ssc_init.Inventory.AssetId.{AssetId}

pub data Rung : Type 0 where
  new changed_bytes unverified upgraded gone : Rung

-- The ordinals: the lower one wins.
unfoldable pub ordinal : Rung → ℕ
ordinal new = 0
ordinal changed_bytes = 1
ordinal unverified = 2
ordinal upgraded = 3
ordinal gone = 4

-- `rungLabels`
unfoldable pub label : Rung → Text
label new = codes "NEW"
label changed_bytes = codes "CHANGED"
label unverified = codes "UNVERIFIED"
label upgraded = codes "UPGRADED"
label gone = codes "REMOVED"

pub record Row : Type 0 where
  pub key : Text
  pub rung : Rung
  pub kind : Text
  pub name : Text
  pub host : Text
  pub from : Text
  pub to : Text

-- `assetChange`
pub record AssetChange : Type 0 where
  pub id : Text
  pub version : Text

unfoldable pub index_observations : Dict Text → List Observation → Dict Text
index_observations d [] = d
index_observations d (o ∷ rest) = index_observations (put o.id o.asset_id d) rest

-- A missing key gives the empty string.
abbrev pub text_at : Text → Dict Text → Text
text_at key d = elim (get key d) [ none ↦ [] | some t ↦ t ]

-- The asset of a piece of evidence, through its observation where it names none.
unfoldable pub evidence_asset : Dict Text → ContentEvidence → Text
evidence_asset observation_asset e =
    if is_empty e.asset_id then text_at e.observation_id observation_asset else e.asset_id

unfoldable pub index_evidence_assets : Dict Text → Dict Text → List ContentEvidence → Dict Text
index_evidence_assets oa d [] = d
index_evidence_assets oa d (e ∷ rest) =
    index_evidence_assets oa (put e.id (evidence_asset oa e) d) rest

unfoldable pub index_evidence_status : Dict Text → List ContentEvidence → Dict Text
index_evidence_status d [] = d
index_evidence_status d (e ∷ rest) = index_evidence_status (put e.id e.status d) rest

unfoldable pub index_assets : Dict Asset → List Asset → Dict Asset
index_assets d [] = d
index_assets d (a ∷ rest) = index_assets (put a.id a d) rest

-- The struct `assetIdentity` as a key. A type and a host hold no `:`, so the text determines them.
unfoldable pub identity_key : AssetId → Text
identity_key p = p.kind ++ codes ":" ++ p.host ++ codes ":" ++ p.name
