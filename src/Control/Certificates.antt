-- ===== src/Control/Certificates.antt =====
-- About the statuses of a feasibility certificate: `issueCertificate` and `transitionCertificate`
-- of apps/api/src/db/store.js.
use volt_hub_csms.Prelude.{ℕ, ◌≡◌, Bool, true, false, Option, some, arith, nat_eq, String}
use volt_hub_csms.Prelude.Dict.{lookup}
use volt_hub_csms.Prelude.Outcome.{err}
use volt_hub_csms.State.{Store, Certificate, CertStatus, met, e_illegal_transition}
use volt_hub_csms.Outbox.{Limits}
use volt_hub_csms.Control.{check_certificate, transition_certificate}

abbrev pub is_final : CertStatus → Bool
is_final CertStatus.failed = true
is_final met = true
is_final _ = false

-- A certificate that is FAILED or MET stays so: every transition of it is refused and changes nothing.
pub transition_certificate_final :
    (l : Limits) (now id : ℕ) (to : CertStatus) (reason : Option String) (s : Store)
    (c : Certificate)
    → lookup id s.control.certificates ≡ some c
    → is_final c.status ≡ true
    → transition_certificate l now id to reason s ≡ (err e_illegal_transition, s)
unfolding transition_certificate check_certificate
transition_certificate_final l now id to reason s c there final = ground (arith, there, final)
