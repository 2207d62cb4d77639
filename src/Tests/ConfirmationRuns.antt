-- ===== src/Tests/ConfirmationRuns.antt =====
-- Runs of the theorems on src/clausis/confirmation.py.
use clausis.Prelude.{◌≡◌, refl, true, [], ◌∷◌, none, lookup, put, without, arith}
use clausis.Outcome.{ok}
use clausis.Text.{is_digits, text_eq, casefold, runs, join_with, pieces, nonempty}
use clausis.Capabilities.{issue, sign}
use clausis.Confirmation.Phrase.{same_phrase, normalized_phrase, compare_texts}
use clausis.Confirmation.Pin.{
  PinVerifier, enroll, derive, validate_pin, verify_pin, export, from_export, enroll-export,
}
use clausis.Confirmation.Confirmer.{
  PendingConfirmation, TrustedConfirmer, ConfirmationResponse, Moment, Collect, approve,
  approve_from_trusted_input,
}
use clausis.Confirmation.Attempts.{IsApproved, attempt_all, attempts_limited}
use clausis.Confirmation.Approval.{approve-IsApproved}
use clausis.Confirmation.Residue.{approval_leaves_nothing}
use clausis.Tests.Fixtures.{ascii, authority, louder_unasked, repeated}

abbrev verifier : PinVerifier
verifier = record { salt = repeated 16 5; digest = repeated 32 7 }

pin-enrolled : enroll "123456" (repeated 16 5) ≡ ok verifier
unfolding enroll validate_pin derive is_digits
pin-enrolled = refl

pin-derived : derive "123456" (repeated 16 5) ≡ repeated 32 7
unfolding derive
pin-derived = refl

enroll-export_example :
    (verify_pin verifier "123456" ≡ true) × (from_export (export verifier) ≡ ok verifier)
unfolding derive
enroll-export_example =
    enroll-export "123456" (repeated 16 5) verifier pin-enrolled refl refl refl refl

abbrev asked : PendingConfirmation
asked = record { request = louder_unasked; phrase = "rot"; expires_at = 60000000; attempts = 0 }

abbrev confirmer : TrustedConfirmer
confirmer = record {
  authority = authority;
  pin = verifier;
  ttl_seconds = 60;
  capability_ttl_seconds = 60;
  pending = ("c1", asked) ∷ [];
}

abbrev pub idle : TrustedConfirmer
idle = record confirmer { pending = [] }

abbrev right : ConfirmationResponse
right = record { phrase = "Rot!"; pin = "123456" }

abbrev wrong : ConfirmationResponse
wrong = record { phrase = "blau"; pin = "123456" }

abbrev pub moment : Moment
moment = record {
  begun = 0;
  approved = 1000000;
  issued = 1000000;
  confirmation_id = "c1";
  phrase = "rot";
  jti = "j1";
}

attempts_limited_example :
    lookup "c1"
      (attempt_all "c1"
        ((wrong, moment) ∷ (wrong, moment) ∷ (wrong, moment) ∷ (right, moment) ∷ [])
        confirmer).pending
    ≡ none
unfolding lookup
attempts_limited_example =
    attempts_limited "c1"
      ((wrong, moment) ∷ (wrong, moment) ∷ (wrong, moment) ∷ (right, moment) ∷ []) asked confirmer
      refl (omega arith) (omega arith)

right-approved : approve "c1" right moment confirmer ≡ (ok "YQ.YQ", idle)
unfolding approve same_phrase normalized_phrase compare_texts issue sign verify_pin derive text_eq
    casefold runs join_with pieces nonempty lookup put without
right-approved = refl

approve-IsApproved_example : IsApproved "c1" right moment confirmer "YQ.YQ" idle
approve-IsApproved_example =
    approve-IsApproved "c1" "YQ.YQ" right moment idle confirmer right-approved

abbrev pub answering : Collect
answering summary phrase = ok right

approval_leaves_nothing_example :
    lookup "c1" (approve_from_trusted_input answering louder_unasked moment idle).1.pending ≡ none
unfolding lookup
approval_leaves_nothing_example =
    approval_leaves_nothing answering louder_unasked moment idle "c1" refl
