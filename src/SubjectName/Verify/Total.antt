-- ===== src/SubjectName/Verify/Total.antt =====
-- src/subject_name/verify.rs: checking a certificate for a name comes to an end.
use webpki.Result.{Result}
use webpki.Untrusted.{Untrusted}
use webpki.Cert.{Cert}
use webpki.SubjectName.GeneralName.{GeneralName}
