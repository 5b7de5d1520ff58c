-- ===== src/Tests.antt =====
-- Runs of the model at concrete inputs, and the theorems at such inputs.
mod Chain
mod Decoding
mod Names
mod Lists
mod Certificates
mod Endings
mod Signatures
mod Matching
mod Search
