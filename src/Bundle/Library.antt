-- ===== src/Bundle/Library.antt =====
-- What internal/bundle calls of other code: the standard library's decoders and
-- cryptography, and the pattern list of internal/privacy.
use ssc_init.Base.{ℕ, ◌*◌, Bool, Option, List, Text}
use ssc_init.Bundle.Tokens.{Tokens}
use ssc_init.Model.{Family}
use ssc_init.Finding.Bundle.{TiRecord, DenyRule, AllowRule, ExceptionRule, PolicyTest, Retention}

-- `[]byte`
abbrev pub Bytes : Type 0
Bytes = List ℕ

-- `Envelope`, as `encoding/json` fills it. Instants are nanoseconds from an instant before the
-- first that RFC 3339 can write.
pub record Document : Type 0 where
  pub schema_version : Text
  pub family : Family
  pub version : Text
  pub sequence : ℕ
  pub key_id : Text
  pub generated_at : ℕ
  pub valid_from : ℕ
  pub valid_until : ℕ
  pub payload : Bytes

-- `PolicyPayload` as it is decoded: a list that the document leaves out is nil.
pub record PolicyDocument : Type 0 where
  pub denies : Option (List DenyRule)
  pub allows : Option (List AllowRule)
  pub exceptions : Option (List ExceptionRule)
  pub tests : Option (List PolicyTest)
  pub retention : Option Retention

-- `*url.URL`, as far as it is read.
pub record Url : Type 0 where
  pub scheme : Text
  pub host : Text
  pub has_user : Bool

pub record Library : Type 1 where
  -- `json.Decoder.Token`, until it returns an error
  pub tokens : Bytes → Tokens
  -- `decodeClosed` into an `Envelope`, a `TIPayload` and a `PolicyPayload`
  pub decode_document : Bytes → Option Document
  pub decode_ti : Bytes → Option (Option (List TiRecord))
  pub decode_policy : Bytes → Option PolicyDocument
  -- `time.Parse(time.RFC3339, …)`, `hex.DecodeString`, `hex.EncodeToString`, `url.Parse`
  pub parse_time : Text → Option ℕ
  pub decode_hex : Text → Option Bytes
  pub encode_hex : Bytes → Text
  pub parse_url : Text → Option Url
  -- `privacy.ContainsSensitiveValue`
  pub is_sensitive : Text → Bool
  -- `ed25519.Verify(key, message, signature)`, `sha256.Sum256`
  pub verify_signature : Bytes → Bytes → Bytes → Bool
  pub sum256 : Bytes → Bytes

-- 24 hours, in nanoseconds.
abbrev pub day : ℕ
day = 24 * 3600 * 1000000000

-- `time.Time{}`: 1 January of the year 1, two years after the instant that is counted from.
abbrev pub zero_time : ℕ
zero_time = 731 * day
