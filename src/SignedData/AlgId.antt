-- ===== src/SignedData/AlgId.antt =====
-- src/signed_data.rs: the module `alg_id`, the encodings of algorithm identifiers. The files of
-- src/data that the constants include are written out.
use webpki.Prelude.{[], ◌∷◌}
use webpki.Untrusted.{Input}

-- `AlgorithmIdentifier`, which is known by its `asn1_id_value`
abbrev pub AlgorithmIdentifier : Type 0
AlgorithmIdentifier = Input

abbrev pub ecdsa_p256 : AlgorithmIdentifier
ecdsa_p256 =
    6 ∷ 7 ∷ 42 ∷ 134 ∷ 72 ∷ 206 ∷ 61 ∷ 2 ∷ 1 ∷ 6 ∷ 8 ∷ 42 ∷ 134 ∷ 72 ∷ 206 ∷ 61 ∷ 3 ∷ 1 ∷ 7 ∷ []

abbrev pub ecdsa_p384 : AlgorithmIdentifier
ecdsa_p384 = 6 ∷ 7 ∷ 42 ∷ 134 ∷ 72 ∷ 206 ∷ 61 ∷ 2 ∷ 1 ∷ 6 ∷ 5 ∷ 43 ∷ 129 ∷ 4 ∷ 0 ∷ 34 ∷ []

abbrev pub ecdsa_sha256 : AlgorithmIdentifier
ecdsa_sha256 = 6 ∷ 8 ∷ 42 ∷ 134 ∷ 72 ∷ 206 ∷ 61 ∷ 4 ∷ 3 ∷ 2 ∷ []

abbrev pub ecdsa_sha384 : AlgorithmIdentifier
ecdsa_sha384 = 6 ∷ 8 ∷ 42 ∷ 134 ∷ 72 ∷ 206 ∷ 61 ∷ 4 ∷ 3 ∷ 3 ∷ []

abbrev pub rsa_encryption : AlgorithmIdentifier
rsa_encryption = 6 ∷ 9 ∷ 42 ∷ 134 ∷ 72 ∷ 134 ∷ 247 ∷ 13 ∷ 1 ∷ 1 ∷ 1 ∷ 5 ∷ 0 ∷ []

abbrev pub rsa_pkcs1_sha256 : AlgorithmIdentifier
rsa_pkcs1_sha256 = 6 ∷ 9 ∷ 42 ∷ 134 ∷ 72 ∷ 134 ∷ 247 ∷ 13 ∷ 1 ∷ 1 ∷ 11 ∷ 5 ∷ 0 ∷ []

abbrev pub rsa_pkcs1_sha384 : AlgorithmIdentifier
rsa_pkcs1_sha384 = 6 ∷ 9 ∷ 42 ∷ 134 ∷ 72 ∷ 134 ∷ 247 ∷ 13 ∷ 1 ∷ 1 ∷ 12 ∷ 5 ∷ 0 ∷ []

abbrev pub rsa_pkcs1_sha512 : AlgorithmIdentifier
rsa_pkcs1_sha512 = 6 ∷ 9 ∷ 42 ∷ 134 ∷ 72 ∷ 134 ∷ 247 ∷ 13 ∷ 1 ∷ 1 ∷ 13 ∷ 5 ∷ 0 ∷ []

abbrev pub rsa_pss_sha256 : AlgorithmIdentifier
rsa_pss_sha256 =
    6 ∷ 9 ∷ 42 ∷ 134 ∷ 72 ∷ 134 ∷ 247 ∷ 13 ∷ 1 ∷ 1 ∷ 10 ∷ 48 ∷ 52 ∷ 160 ∷ 15 ∷ 48 ∷ 13 ∷ 6 ∷ 9 ∷ 96
    ∷ 134 ∷ 72 ∷ 1 ∷ 101 ∷ 3 ∷ 4 ∷ 2 ∷ 1 ∷ 5 ∷ 0 ∷ 161 ∷ 28 ∷ 48 ∷ 26 ∷ 6 ∷ 9 ∷ 42 ∷ 134 ∷ 72 ∷ 134
    ∷ 247 ∷ 13 ∷ 1 ∷ 1 ∷ 8 ∷ 48 ∷ 13 ∷ 6 ∷ 9 ∷ 96 ∷ 134 ∷ 72 ∷ 1 ∷ 101 ∷ 3 ∷ 4 ∷ 2 ∷ 1 ∷ 5 ∷ 0 ∷ 162
    ∷ 3 ∷ 2 ∷ 1 ∷ 32 ∷ []

abbrev pub rsa_pss_sha384 : AlgorithmIdentifier
rsa_pss_sha384 =
    6 ∷ 9 ∷ 42 ∷ 134 ∷ 72 ∷ 134 ∷ 247 ∷ 13 ∷ 1 ∷ 1 ∷ 10 ∷ 48 ∷ 52 ∷ 160 ∷ 15 ∷ 48 ∷ 13 ∷ 6 ∷ 9 ∷ 96
    ∷ 134 ∷ 72 ∷ 1 ∷ 101 ∷ 3 ∷ 4 ∷ 2 ∷ 2 ∷ 5 ∷ 0 ∷ 161 ∷ 28 ∷ 48 ∷ 26 ∷ 6 ∷ 9 ∷ 42 ∷ 134 ∷ 72 ∷ 134
    ∷ 247 ∷ 13 ∷ 1 ∷ 1 ∷ 8 ∷ 48 ∷ 13 ∷ 6 ∷ 9 ∷ 96 ∷ 134 ∷ 72 ∷ 1 ∷ 101 ∷ 3 ∷ 4 ∷ 2 ∷ 2 ∷ 5 ∷ 0 ∷ 162
    ∷ 3 ∷ 2 ∷ 1 ∷ 48 ∷ []

abbrev pub rsa_pss_sha512 : AlgorithmIdentifier
rsa_pss_sha512 =
    6 ∷ 9 ∷ 42 ∷ 134 ∷ 72 ∷ 134 ∷ 247 ∷ 13 ∷ 1 ∷ 1 ∷ 10 ∷ 48 ∷ 52 ∷ 160 ∷ 15 ∷ 48 ∷ 13 ∷ 6 ∷ 9 ∷ 96
    ∷ 134 ∷ 72 ∷ 1 ∷ 101 ∷ 3 ∷ 4 ∷ 2 ∷ 3 ∷ 5 ∷ 0 ∷ 161 ∷ 28 ∷ 48 ∷ 26 ∷ 6 ∷ 9 ∷ 42 ∷ 134 ∷ 72 ∷ 134
    ∷ 247 ∷ 13 ∷ 1 ∷ 1 ∷ 8 ∷ 48 ∷ 13 ∷ 6 ∷ 9 ∷ 96 ∷ 134 ∷ 72 ∷ 1 ∷ 101 ∷ 3 ∷ 4 ∷ 2 ∷ 3 ∷ 5 ∷ 0 ∷ 162
    ∷ 3 ∷ 2 ∷ 1 ∷ 64 ∷ []

abbrev pub ed25519 : AlgorithmIdentifier
ed25519 = 6 ∷ 3 ∷ 43 ∷ 101 ∷ 112 ∷ []
