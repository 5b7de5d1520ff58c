-- ===== src/Lib.antt =====
-- A model of the webpki library: validation of X.509 certificates for TLS.
--
-- The parts, bottom up. der.rs reads DER values from an `untrusted::Reader`; time.rs, x509.rs,
-- signed_data.rs, cert.rs and crl.rs decode times, extensions, signed structures, certificates and
-- revocation lists with it. subject_name/ decodes general names, matches DNS names and IP addresses
-- and checks name constraints. verify_cert.rs searches for a path from an end-entity certificate over
-- intermediate certificates to a trust anchor: it checks each certificate, verifies the signatures
-- with the caller's algorithms and asks the revocation lists. trust_anchor.rs and end_entity.rs are
-- the entry points.
--
-- The files, with the code that they model:
--   Prelude, Prelude/*        shared names, tests on numbers, lists, bits
--   Error, Error/Rank         src/error.rs: Error, most_specific, rank
--   Result, Exec              `?` on Result<_, Error>, and on code that changes a state
--   Untrusted, Untrusted/*    the crate `untrusted`, an interface; Slice is an instance of it
--   Der, Der/*                src/der.rs: read_tag_and_get_value_limited, nested, bit_string_flags, ..
--   Time, Time/*              src/time.rs: Time::from_der, time_from_ymdhms_utc
--   X509, X509/Fields         src/x509.rs: Extension, set_extension_once, DistributionPointName
--   SignedData, SignedData/*  src/signed_data.rs: SignedData::from_der, verify_signed_data, alg_id
--   RingAlgs, RingAlgs/*      src/ring_algs.rs: RingAlgorithm and the static algorithms
--   Cert, Cert/*              src/cert.rs: Cert::from_der, CrlDistributionPoint
--   Crl, Crl/Scope, Crl/Owned src/crl.rs: the two kinds of list, IssuingDistributionPoint
--   SubjectName/GeneralName   src/subject_name/verify.rs: GeneralName
--   SubjectName/DnsName       src/subject_name/dns_name.rs: is_valid_dns_id and the matching
--   SubjectName/IpAddress, */ src/subject_name/ip_address.rs: matching; in Parse, reading from text
--   SubjectName/Verify        src/subject_name/verify.rs, name.rs: NameIterator, name constraints
--   VerifyCert                src/verify_cert.rs: build_chain, check_signatures
--   VerifyCert/Checks, */     src/verify_cert.rs: check_issuer_independent_properties
--   VerifyCert/Revocation, */ src/verify_cert.rs: check_crls, crl_authoritative
--   VerifyCert/Path, Sound    the specification of an accepted path, and the refinement
--   VerifyCert/Depth, Loop    the fuel of the search; the loop over candidates
--   VerifyCert/Budget, Limit  the count of signatures
--   TrustAnchor               src/trust_anchor.rs, src/end_entity.rs
--   */Total                   that the decoders of a part come to an end
--   */Inversion, */Gives      what a successful run of a decoder says of its bytes and its value
--   Tests/*                   runs at concrete inputs
--
-- How state and operations correspond. A byte slice is a list of numbers. A decoder that takes
-- `&mut Reader` is a function from a reader to a result and a reader (Exec); the count
-- `signatures: &mut usize` is such a state too. Early returns are errors of Result. `panic` stands for
-- a Rust panic: an index out of bounds, `unwrap`, `expect`, `assert!`, `debug_assert!`,
-- `unreachable!()` and a subtraction below 0. `stuck` stands for a
-- loop of the model out of fuel. Where a function has inner functions or closures they are
-- definitions of their own. `Cert` is a leaf, or an issuer with the certificate below it. The maps
-- of `OwnedCertRevocationList` are association lists.
--
-- Fuel and bounds. A loop over a reader has as much fuel as the reader has bytes, or one more, since
-- each round reads a byte at least. `build_chain` has fuel for eight levels: a leaf, six issuers and
-- the seventh, which is refused. Numbers are unbounded, and a shift or a bit operation is written on
-- them; the sums of the code stay far below 2^64.
--
-- Not modelled: the crates `untrusted` and `ring`, which are interfaces, and other signature
-- algorithms, which are the caller's; printing, conversions to and from text types and std::net, and
-- Display. The Rust types' lifetimes have no counterpart.
pub mod Prelude
pub mod RingAlgs
pub mod Error
pub mod Result
pub mod Exec
pub mod Untrusted
pub mod Der
pub mod Time
pub mod SubjectName
pub mod X509
pub mod SignedData
pub mod Cert
pub mod Crl
pub mod VerifyCert
pub mod TrustAnchor
pub mod Tests
