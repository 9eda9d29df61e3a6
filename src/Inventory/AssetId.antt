-- ===== src/Inventory/AssetId.antt =====
-- internal/inventory/ladder.go: asset IDs and how assets are displayed.
use ssc_init.Base.{
  ℕ, Bool, ◌&&◌, ◌||◌, Option, none, some, List, [], ◌∷◌, all, any, is_empty, leb, ◌==◌,
  if◌then◌else◌, Text, codes, text_eq, byte_length, cut, Dict, get,
}
use ssc_init.Model.{Asset}

-- The results of `parseAssetID`.
pub record AssetId : Type 0 where
  pub kind : Text
  pub host : Text
  pub name : Text
  pub version : Text

abbrev pub versioned_types : List Text
versioned_types =
    codes "agent-plugin" ∷ codes "agent-skill" ∷ codes "ide-extension" ∷ codes "pkg" ∷ []

-- The texts before and behind the last occurrence of a code point.
unfoldable pub cut_last : ℕ → Text → Option (Text × Text)
cut_last sep [] = none
cut_last sep (c ∷ cs) = before c cs (cut_last sep cs)
  where
    before : ℕ → Text → Option (Text × Text) → Option (Text × Text)
    before c cs (some (a, b)) = some (c ∷ a, b)
    before c cs none = if c == sep then some ([], cs) else none

-- The parts of `strings.SplitN(id, ":", 3)`, without a version.
unfoldable pub split_id : Text → AssetId
split_id id = elim (cut b':' id) [
  | none ↦ record { kind = []; host = []; name = id; version = [] }
  | some (kind, rest) ↦ elim (cut b':' rest) [
    | none ↦ record { kind = kind; host = []; name = rest; version = [] }
    | some (host, name) ↦ record { kind = kind; host = host; name = name; version = [] }
  ]
]

-- A version behind the last `@`, unless nothing stands before it.
unfoldable pub split_version : AssetId → AssetId
split_version p = elim (cut_last b'@' p.name) [
  | none ↦ p
  | some (name, version) ↦ if is_empty name then p else record p { name = name; version = version }
]

unfoldable pub parse_asset_id : Text → AssetId
parse_asset_id id =
    let p = split_id id in if any (text_eq p.kind) versioned_types then split_version p else p

-- `digestSegment`: 64 lower-case hexadecimal digits.
unfoldable pub is_digest_segment : Text → Bool
is_digest_segment value =
    byte_length value == 64 && all (λ c. leb 48 c && leb c 57 || leb 97 c && leb c 102) value

-- `assetTypeByIDPrefix`
abbrev pub types_by_prefix : Dict Text
types_by_prefix =
    (codes "agent-plugin", codes "agent-plugin")
    ∷ (codes "agent-skill", codes "agent-skill")
    ∷ (codes "ide-extension", codes "ide-extension")
    ∷ (codes "mcp", codes "mcp-server")
    ∷ (codes "pkg", codes "package")
    ∷ (codes "project", codes "project")
    ∷ (codes "project-config", codes "project")
    ∷ (codes "tool", codes "tool")
    ∷ (codes "tool-executable", codes "tool")
    ∷ []

abbrev pub unnamed_asset : Text
unnamed_asset = codes "(unnamed)"

-- The results of `displayFor`.
pub record Display : Type 0 where
  pub kind : Text
  pub name : Text
  pub host : Text

unfoldable pub display_type : Text → Text
display_type kind = elim (get kind types_by_prefix) [ none ↦ kind | some mapped ↦ mapped ]

unfoldable pub display_for : Dict Asset → Text → Display
display_for assets id = elim (get id assets) [
  | some asset ↦ record { kind = asset.kind; name = asset.name; host = asset.source }
  | none ↦
      let p = parse_asset_id id in
      if is_digest_segment p.name
      then record { kind = display_type p.kind; name = unnamed_asset; host = [] }
      else record { kind = display_type p.kind; name = p.name; host = p.host }
]
