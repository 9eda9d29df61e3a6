-- ===== src/Policy/Shape.antt =====
-- internal/policy/shape.go: whether an asset has the shape that a rule asks for.
use ssc_init.Base.{
  Bool, ◌&&◌, ◌||◌, Option, none, some, List, [], ◌∷◌, any, all, is_empty, if◌then◌else◌, Text,
  codes, text_eq, split, contains, Dict, get,
}
use ssc_init.Model.{Asset, Observation, ContentEvidence}
use ssc_init.Policy.Document.{Match}

-- An empty set matches every value.
unfoldable pub matches_set : List Text → Text → Bool
matches_set values value = is_empty values || any (λ candidate. text_eq candidate value) values

abbrev pub text_or_empty : Option Text → Text
text_or_empty none = []
text_or_empty (some t) = t

-- The observation's metadata come first; a missing key is the empty string.
unfoldable pub metadata_value : Asset → Observation → Text → Text
metadata_value asset observation key = elim (get key observation.metadata) [
  | some value ↦ value
  | none ↦ text_or_empty (get key asset.metadata)
]

unfoldable pub contains_any_of : Text → List Text → Bool → Bool
contains_any_of value fragments split_arguments =
    any (λ candidate. any (contains candidate) fragments)
      (if split_arguments then split 0x1f value else value ∷ [])

unfoldable pub equals_all : Asset → Observation → Dict (List Text) → Bool
equals_all asset observation =
    all (λ entry. matches_set entry.1 (metadata_value asset observation entry.0))

unfoldable pub contains_all : Asset → Observation → Dict (List Text) → Bool
contains_all asset observation = all (λ entry.
    contains_any_of (metadata_value asset observation entry.0) entry.1
      (text_eq entry.0 (codes "args")))

unfoldable pub matches_shape : Match → Asset → Observation → List ContentEvidence → Bool
matches_shape m asset observation evidence =
    matches_set m.asset_type asset.kind
    && matches_set m.asset_name asset.name
    && matches_set m.asset_version asset.version
    && matches_set m.host observation.host
    && matches_set m.observation_source observation.source
    && equals_all asset observation m.metadata_equals
    && contains_all asset observation m.metadata_contains
    && (is_empty m.evidence_status || any (λ e. matches_set m.evidence_status e.status) evidence)
