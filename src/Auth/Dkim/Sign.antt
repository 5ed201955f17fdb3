-- ===== src/Auth/Dkim/Sign.antt =====
-- The signer of src/auth/dkim.rs. The file system, the keys, the hash and base64 are parameters.
pub mod Coverage
use my_mta.Prelude.{ℕ, List, ◌++◌, ◌∷◌, [], Option, none, some, Result, ok, err}
use my_mta.Prelude.Text.{Text, codes}
use my_mta.Prelude.Text.Numbers.{decimal}
use my_mta.Auth.Dkim.{
  DkimAlgorithm, rsa_sha256, ed25519_sha256, KeyFormat, pem, der, DkimConfig, DkimError,
  key_load_error, key_error, signing_error, unsupported_algorithm, algorithm_text, canon_text,
}
use my_mta.Auth.Dkim.Canon.{canonicalize_body, build_header_hash_input, join, fold_signature}

-- What the signer calls; an error is its text.
pub record Crypto : Type 1 where
  pub RsaPrivateKey : Type 0
  pub read : Text → Result Text (List ℕ)
  pub from_utf8 : List ℕ → Result Text Text
  pub from_pkcs8_pem : Text → Result Text RsaPrivateKey
  pub from_pkcs8_der : List ℕ → Result Text RsaPrivateKey
  pub try_sign : RsaPrivateKey → List ℕ → Result Text (List ℕ)
  pub public_key_der : RsaPrivateKey → Result Text (List ℕ)
  pub sha256 : List ℕ → List ℕ
  pub base64 : List ℕ → Text

-- `map_err`
abbrev pub map_err {ℓ κ ι} :
    {A : Type ℓ} {E : Type κ} {F : Type ι} → (E → F) → Result E A → Result F A
map_err f (ok a) = ok a
map_err f (err e) = err (f e)

module _ (crypto : Crypto) where
  pub record DkimSigner : Type 0 where
    pub config : DkimConfig
    pub signing_key : crypto.RsaPrivateKey

  -- The key of the file's bytes.
  read_key : KeyFormat → List ℕ → Result DkimError crypto.RsaPrivateKey
  read_key pem key_data = elim (crypto.from_utf8 key_data) [
    | err e ↦ err (key_load_error (codes "Invalid PEM encoding: " ++ e))
    | ok pem_str ↦
        map_err (λ e. key_load_error (codes "Invalid RSA key: " ++ e))
          (crypto.from_pkcs8_pem pem_str)
  ]
  read_key der key_data =
      map_err (λ e. key_load_error (codes "Invalid RSA key: " ++ e))
        (crypto.from_pkcs8_der key_data)

  key_for : DkimAlgorithm → KeyFormat → List ℕ → Result DkimError crypto.RsaPrivateKey
  unfolding read_key
  key_for rsa_sha256 format key_data = read_key format key_data
  key_for ed25519_sha256 format key_data =
      err (unsupported_algorithm (codes "Ed25519 not yet implemented"))

  unfoldable pub load_key : DkimConfig → Result DkimError crypto.RsaPrivateKey
  unfolding key_for
  load_key config = elim (crypto.read config.private_key_path) [
    | err e ↦ err (
        key_load_error
          (codes "Failed to read key file " ++ config.private_key_path ++ codes ": " ++ e))
    | ok key_data ↦ key_for config.algorithm config.key_format key_data
  ]

  unfoldable pub from_config : DkimConfig → Result DkimError DkimSigner
  unfolding load_key
  from_config config = elim (load_key config) [
    | err e ↦ err e
    | ok key ↦ ok (record { config = config; signing_key = key })
  ]

  unfoldable pub sign_data : DkimSigner → List ℕ → Result DkimError (List ℕ)
  sign_data signer data' =
      map_err (λ e. signing_error (codes "RSA signing failed: " ++ e))
        (crypto.try_sign signer.signing_key data')

  unfoldable pub dns_record_name : DkimSigner → Text
  dns_record_name signer =
      signer.config.selector ++ codes "._domainkey." ++ signer.config.domain ++ codes "."

  key_kind : DkimAlgorithm → Text
  key_kind rsa_sha256 = codes "rsa"
  key_kind ed25519_sha256 = codes "ed25519"

  unfoldable pub generate_dns_record : DkimSigner → Result DkimError Text
  unfolding key_kind
  generate_dns_record signer = elim (crypto.public_key_der signer.signing_key) [
    | err e ↦ err (key_error (codes "Failed to encode public key: " ++ e))
    | ok der_bytes ↦ ok (
        codes "v=DKIM1; k="
        ++ key_kind signer.config.algorithm
        ++ codes "; p="
        ++ crypto.base64 der_bytes)
  ]

  unfoldable pub compute_body_hash : List ℕ → List ℕ
  compute_body_hash body = crypto.sha256 body

  seconds : Option ℕ → ℕ
  seconds none = 0
  seconds (some t) = t

  -- The header without the signature; `timestamp` is none before 1970.
  unfoldable pub header_without_signature : DkimConfig → Option ℕ → List ℕ → Text
  unfolding seconds algorithm_text canon_text join decimal
  header_without_signature config timestamp body_hash =
      codes "v=1; a="
      ++ algorithm_text config.algorithm
      ++ codes "; c="
      ++ canon_text config.header_canon
      ++ codes "/"
      ++ canon_text config.body_canon
      ++ codes "; d="
      ++ config.domain
      ++ codes "; s="
      ++ config.selector
      ++ codes "; t="
      ++ decimal (seconds timestamp)
      ++ codes "; h="
      ++ join b':' config.signed_headers
      ++ codes "; bh="
      ++ crypto.base64 body_hash
      ++ codes "; q=dns/txt; b="

  module _ (lossy : List ℕ → Text) (lower : Text → Text) where
    -- What is signed.
    unfoldable pub to_be_signed :
        DkimSigner → Option ℕ → List (Text × Text) → List ℕ → Text × List ℕ
    unfolding canonicalize_body compute_body_hash header_without_signature build_header_hash_input
    to_be_signed signer timestamp headers body =
        let config = signer.config in
        let dkim_header =
          header_without_signature config timestamp
            (compute_body_hash (canonicalize_body lossy body config.body_canon)) in
        (
          dkim_header,
          build_header_hash_input lower headers config.signed_headers config.header_canon
              dkim_header,
        )

    unfoldable pub sign :
        DkimSigner → Option ℕ → List (Text × Text) → List ℕ → Result DkimError Text
    unfolding to_be_signed sign_data fold_signature
    sign signer timestamp headers body =
        let (dkim_header, header_hash_input) = to_be_signed signer timestamp headers body in
        elim (sign_data signer header_hash_input) [
          | err e ↦ err e
          | ok signature ↦ ok (dkim_header ++ fold_signature (crypto.base64 signature))
        ]
