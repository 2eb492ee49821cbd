-- ===== src/Server/Certificate.antt =====
-- pkg/cert/generate_self_signed.go: the certificate of the control server's TLS listener.
use ffstream.Base.{
  ℕ, ◌*◌, ◌+◌, ◌<◌, ◌^◌, String, Bool, true, Option, none, some, List, [], ◌∷◌, ◌≡◌, refl, arith,
}

-- `x509.Certificate`, with the fields that are set; times are in nanoseconds.
pub record CertificateTemplate : Type 0 where
  pub serial_number : ℕ
  pub organization : List String
  pub not_before : ℕ
  pub not_after : ℕ
  pub for_digital_signature : Bool
  pub for_server_auth : Bool
  pub dns_names : List String

-- The library: the keys, the certificate signed by its own key, the encoding of the key with its error,
-- and the pair of both texts.
pub record CryptoApi : Type 1 where
  pub Public : Type 0
  pub Private : Type 0
  pub Bytes : Type 0
  pub Certificate : Type 0
  pub generate_key : Option (Public × Private)
  pub create_certificate :
      CertificateTemplate → CertificateTemplate → Public → Private → Option Bytes
  pub marshal_private_key : Private → Bytes × Bool
  pub encode_to_memory : String → Bytes → Bytes
  pub key_pair : Bytes → Bytes → Option Certificate

-- 10 * 365 * 24 hours
abbrev pub validity : ℕ
validity = 10 * 365 * 24 * 3600 * 1_000_000_000

unfoldable pub certificate_template : ℕ → ℕ → CertificateTemplate
certificate_template now later = record {
  serial_number = 1;
  organization = "DX.center" ∷ [];
  not_before = now;
  not_after = later + validity;
  for_digital_signature = true;
  for_server_auth = true;
  dns_names = "wingout.dx.center" ∷ [];
}

-- `GenerateSelfSignedForServer`, at the times of its two calls of `Now`; the error of the key's encoding
-- is not looked at.
unfoldable pub generate_self_signed_for_server : (api : CryptoApi) → ℕ → ℕ → Option api.Certificate
unfolding certificate_template
generate_self_signed_for_server api now later = elim api.generate_key [
  | none ↦ none
  | some (public, private) ↦
      elim (api.create_certificate (certificate_template now later) (certificate_template now later)
        public private) [
          | none ↦ none
          | some der ↦
              api.key_pair (api.encode_to_memory "CERTIFICATE" der)
                (api.encode_to_memory "PRIVATE KEY" (api.marshal_private_key private).0)
        ]
]

-- The certificate does not depend on whether the key could be encoded: two libraries that differ in that
-- error alone give the same.
generate_ignores_error :
    (api : CryptoApi) (failed : api.Private → Bool) (now later : ℕ)
    → generate_self_signed_for_server api now later
      ≡ generate_self_signed_for_server
          (record api { marshal_private_key = λ k. ((api.marshal_private_key k).0, failed k) })
          now
          later
unfolding generate_self_signed_for_server
generate_ignores_error api failed now later = refl

-- The duration fits `time.Duration`.
validity_fits : validity < 2 ^ 63
validity_fits = omega arith
