-- ===== src/Tests/JourneyRuns.antt =====
-- A run of the way from the confirmer to the broker.
use clausis.Prelude.{◌≡◌, refl, arith, lookup, put, without}
use clausis.Outcome.{ok}
use clausis.Text.{text_eq, casefold, runs, join_with, pieces, nonempty}
use clausis.Policy.Evaluate.{decide, evaluate, evaluate_by, policy_of, needs_confirmation}
use clausis.Capabilities.{issue, sign, payload_of, arguments_digest}
use clausis.Confirmation.Summary.{canonical_summary, spoken_target}
use clausis.Confirmation.Phrase.{same_phrase, normalized_phrase, compare_texts}
use clausis.Confirmation.Pin.{verify_pin, derive}
use clausis.Confirmation.Confirmer.{approve_from_trusted_input, approve, begin, deny}
use clausis.Broker.Submit.{submit}
use clausis.Journey.{approved_runs}
use clausis.Tests.Fixtures.{ascii, louder, louder_unasked, counting, broker, clock}
use clausis.Tests.CapabilityRuns.{louder-IsFaithful}
use clausis.Tests.PolicyRuns.{louder_policy, louder-evaluated}
use clausis.Tests.ConfirmationRuns.{idle, moment, answering}

louder-approved :
    approve_from_trusted_input answering louder_unasked moment idle ≡ (ok louder, idle)
unfolding approve_from_trusted_input approve begin deny canonical_summary evaluate evaluate_by
    policy_of needs_confirmation same_phrase normalized_phrase compare_texts issue sign verify_pin
    derive text_eq casefold runs join_with pieces nonempty lookup put without spoken_target
louder-approved = refl

approved_runs_example : (submit counting clock louder broker).1.world ≡ 1
unfolding payload_of arguments_digest
approved_runs_example =
    approved_runs answering louder_unasked louder moment idle idle counting clock broker
      (decide louder_policy louder) louder-approved louder-evaluated refl refl (omega arith) refl
      louder-IsFaithful
