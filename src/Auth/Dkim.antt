-- ===== src/Auth/Dkim.antt =====
-- The data of src/auth/dkim.rs: algorithms, configuration, results and errors. A path is its text.
pub mod Canon
pub mod Sign
use my_mta.Prelude.{ℕ, List, [], ◌∷◌, ◌++◌, Bool, true, false, Option}
use my_mta.Prelude.Text.{Text, codes}

pub data DkimAlgorithm : Type 0 where
  rsa_sha256 ed25519_sha256 : DkimAlgorithm

pub data Canonicalization : Type 0 where
  simple relaxed : Canonicalization

pub data KeyFormat : Type 0 where
  pem der : KeyFormat

-- `Display`
unfoldable pub algorithm_text : DkimAlgorithm → Text
algorithm_text rsa_sha256 = codes "rsa-sha256"
algorithm_text ed25519_sha256 = codes "ed25519-sha256"

-- `Display`
unfoldable pub canon_text : Canonicalization → Text
canon_text simple = codes "simple"
canon_text relaxed = codes "relaxed"

abbrev pub algorithm_default : DkimAlgorithm
algorithm_default = rsa_sha256

abbrev pub canon_default : Canonicalization
canon_default = relaxed

abbrev pub key_format_default : KeyFormat
key_format_default = pem

pub record DkimConfig : Type 0 where
  pub selector : Text
  pub domain : Text
  pub private_key_path : Text
  pub key_format : KeyFormat
  pub algorithm : DkimAlgorithm
  pub header_canon : Canonicalization
  pub body_canon : Canonicalization
  pub signed_headers : List Text

abbrev pub default_signed_headers : List Text
default_signed_headers =
    codes "from"
    ∷ codes "to"
    ∷ codes "subject"
    ∷ codes "date"
    ∷ codes "message-id"
    ∷ codes "mime-version"
    ∷ codes "content-type"
    ∷ codes "content-transfer-encoding"
    ∷ []

unfoldable pub new : Text → Text → Text → DkimConfig
new selector domain private_key_path = record {
  selector = selector;
  domain = domain;
  private_key_path = private_key_path;
  key_format = key_format_default;
  algorithm = algorithm_default;
  header_canon = canon_default;
  body_canon = canon_default;
  signed_headers = default_signed_headers;
}

unfoldable pub with_key_format : DkimConfig → KeyFormat → DkimConfig
with_key_format c format = record c { key_format = format }

unfoldable pub with_algorithm : DkimConfig → DkimAlgorithm → DkimConfig
with_algorithm c algorithm = record c { algorithm = algorithm }

unfoldable pub with_canonicalization : DkimConfig → Canonicalization → Canonicalization → DkimConfig
with_canonicalization c header body = record c { header_canon = header; body_canon = body }

unfoldable pub with_signed_headers : DkimConfig → List Text → DkimConfig
with_signed_headers c headers = record c { signed_headers = headers }

pub data DkimResult : Type 0 where
  absent pass fail temp_error perm_error : DkimResult

unfoldable pub is_pass : DkimResult → Bool
is_pass pass = true
is_pass _ = false

pub data DkimError : Type 0 where
  key_load_error key_error signing_error unsupported_algorithm : (msg : Text) → DkimError

-- `Display`
unfoldable pub error_text : DkimError → Text
error_text (key_load_error msg) = codes "Key load error: " ++ msg
error_text (key_error msg) = codes "Key error: " ++ msg
error_text (signing_error msg) = codes "Signing error: " ++ msg
error_text (unsupported_algorithm msg) = codes "Unsupported algorithm: " ++ msg
