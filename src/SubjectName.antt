-- ===== src/SubjectName.antt =====
-- src/subject_name: the names of a certificate's subject.
pub mod GeneralName
pub mod DnsName
pub mod IpAddress
pub mod Verify
