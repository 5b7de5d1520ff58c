-- ===== src/RingAlgs.antt =====
-- src/ring_algs.rs: the signature algorithms of the crate `ring`, which is an interface here: its
-- algorithms by their names, and the verification with one of them.
pub mod Accepts
use webpki.Prelude.{ℕ, Bool}
use webpki.Untrusted.{Input}
use webpki.SignedData.{SignatureVerificationAlgorithm}
use webpki.SignedData.AlgId.{AlgorithmIdentifier}
use webpki.SignedData.AlgId

-- `ring::signature`: the static algorithms, and `UnparsedPublicKey::verify` of a key's bytes, a
-- message and a signature
pub record Ring : Type 1 where
  pub VerificationAlgorithm : Type 0
  pub ecdsa_p256_sha256_asn1 : VerificationAlgorithm
  pub ecdsa_p256_sha384_asn1 : VerificationAlgorithm
  pub ecdsa_p384_sha256_asn1 : VerificationAlgorithm
  pub ecdsa_p384_sha384_asn1 : VerificationAlgorithm
  pub rsa_pkcs1_2048_8192_sha256 : VerificationAlgorithm
  pub rsa_pkcs1_2048_8192_sha384 : VerificationAlgorithm
  pub rsa_pkcs1_2048_8192_sha512 : VerificationAlgorithm
  pub rsa_pkcs1_3072_8192_sha384 : VerificationAlgorithm
  pub rsa_pss_2048_8192_sha256 : VerificationAlgorithm
  pub rsa_pss_2048_8192_sha384 : VerificationAlgorithm
  pub rsa_pss_2048_8192_sha512 : VerificationAlgorithm
  pub ed25519 : VerificationAlgorithm
  pub verify : VerificationAlgorithm → Input → Input → Input → Bool

module _ ⦃ring : Ring⦄ where
  pub record RingAlgorithm : Type 0 where
    pub public_key_alg_id : AlgorithmIdentifier
    pub signature_alg_id : AlgorithmIdentifier
    pub verification_alg : ring.VerificationAlgorithm

  -- `impl SignatureVerificationAlgorithm for RingAlgorithm`
  pub as_algorithm : RingAlgorithm → SignatureVerificationAlgorithm
  as_algorithm self = record {
    public_key_alg_id = self.public_key_alg_id;
    signature_alg_id = self.signature_alg_id;
    verify_signature = λ public_key message signature.
        ring.verify self.verification_alg public_key message signature;
  }

  abbrev pub ecdsa_p256_sha256 : RingAlgorithm
  ecdsa_p256_sha256 = record {
    public_key_alg_id = AlgId.ecdsa_p256;
    signature_alg_id = AlgId.ecdsa_sha256;
    verification_alg = ring.ecdsa_p256_sha256_asn1;
  }

  abbrev pub ecdsa_p256_sha384 : RingAlgorithm
  ecdsa_p256_sha384 = record {
    public_key_alg_id = AlgId.ecdsa_p256;
    signature_alg_id = AlgId.ecdsa_sha384;
    verification_alg = ring.ecdsa_p256_sha384_asn1;
  }

  abbrev pub ecdsa_p384_sha256 : RingAlgorithm
  ecdsa_p384_sha256 = record {
    public_key_alg_id = AlgId.ecdsa_p384;
    signature_alg_id = AlgId.ecdsa_sha256;
    verification_alg = ring.ecdsa_p384_sha256_asn1;
  }

  abbrev pub ecdsa_p384_sha384 : RingAlgorithm
  ecdsa_p384_sha384 = record {
    public_key_alg_id = AlgId.ecdsa_p384;
    signature_alg_id = AlgId.ecdsa_sha384;
    verification_alg = ring.ecdsa_p384_sha384_asn1;
  }

  abbrev pub rsa_pkcs1_2048_8192_sha256 : RingAlgorithm
  rsa_pkcs1_2048_8192_sha256 = record {
    public_key_alg_id = AlgId.rsa_encryption;
    signature_alg_id = AlgId.rsa_pkcs1_sha256;
    verification_alg = ring.rsa_pkcs1_2048_8192_sha256;
  }

  abbrev pub rsa_pkcs1_2048_8192_sha384 : RingAlgorithm
  rsa_pkcs1_2048_8192_sha384 = record {
    public_key_alg_id = AlgId.rsa_encryption;
    signature_alg_id = AlgId.rsa_pkcs1_sha384;
    verification_alg = ring.rsa_pkcs1_2048_8192_sha384;
  }

  abbrev pub rsa_pkcs1_2048_8192_sha512 : RingAlgorithm
  rsa_pkcs1_2048_8192_sha512 = record {
    public_key_alg_id = AlgId.rsa_encryption;
    signature_alg_id = AlgId.rsa_pkcs1_sha512;
    verification_alg = ring.rsa_pkcs1_2048_8192_sha512;
  }

  abbrev pub rsa_pkcs1_3072_8192_sha384 : RingAlgorithm
  rsa_pkcs1_3072_8192_sha384 = record {
    public_key_alg_id = AlgId.rsa_encryption;
    signature_alg_id = AlgId.rsa_pkcs1_sha384;
    verification_alg = ring.rsa_pkcs1_3072_8192_sha384;
  }

  abbrev pub rsa_pss_2048_8192_sha256_legacy_key : RingAlgorithm
  rsa_pss_2048_8192_sha256_legacy_key = record {
    public_key_alg_id = AlgId.rsa_encryption;
    signature_alg_id = AlgId.rsa_pss_sha256;
    verification_alg = ring.rsa_pss_2048_8192_sha256;
  }

  abbrev pub rsa_pss_2048_8192_sha384_legacy_key : RingAlgorithm
  rsa_pss_2048_8192_sha384_legacy_key = record {
    public_key_alg_id = AlgId.rsa_encryption;
    signature_alg_id = AlgId.rsa_pss_sha384;
    verification_alg = ring.rsa_pss_2048_8192_sha384;
  }

  abbrev pub rsa_pss_2048_8192_sha512_legacy_key : RingAlgorithm
  rsa_pss_2048_8192_sha512_legacy_key = record {
    public_key_alg_id = AlgId.rsa_encryption;
    signature_alg_id = AlgId.rsa_pss_sha512;
    verification_alg = ring.rsa_pss_2048_8192_sha512;
  }

  abbrev pub ed25519 : RingAlgorithm
  ed25519 = record {
    public_key_alg_id = AlgId.ed25519;
    signature_alg_id = AlgId.ed25519;
    verification_alg = ring.ed25519;
  }

unfoldable pub ring_code : Unit {0}
unfolding as_algorithm
ring_code = tt
