-- ===== src/Tests/BrokerRuns.antt =====
-- Runs of the theorems on src/clausis/broker.py.
use clausis.Prelude.{◌≡◌, refl, false, [], ◌∷◌, ◌^◌, none, arith}
use clausis.Prelude.Int.{pos}
use clausis.Outcome.{ok, raised, overflow_error}
use clausis.Text.{text_eq, normalize_spaces}
use clausis.Models.Value.{int}
use clausis.Models.Request.{ActionRequest, local_voice, medium}
use clausis.Policy.Evaluate.{decide, needs_confirmation}
use clausis.Policy.Validators.Targets.{accessible_name}
use clausis.Broker.Submit.{submit}
use clausis.Broker.Authorisation.{IsAuthorised, Effect, submit-Effect}
use clausis.Broker.Journal.{Recorded, submit-Recorded, spin_value_escapes}
use clausis.Broker.Replay.{submit_all, tainted_needs_token, token_runs_once}
use clausis.Tests.Fixtures.{
  ascii, spent, louder, louder_unasked, token_payload, counting, broker, clock,
}
use clausis.Tests.PolicyRuns.{louder_policy, louder-evaluated}
use clausis.Tests.CapabilityRuns.{louder-accepted}

submit-Effect_example :
    Effect counting louder broker
      (IsAuthorised clock louder broker)
      (submit counting clock louder broker).1
submit-Effect_example = submit-Effect counting clock louder broker

submit-Recorded_example : Recorded clock louder broker (submit counting clock louder broker)
submit-Recorded_example = submit-Recorded counting clock louder broker

tainted_needs_token_example : (submit counting clock louder_unasked broker).1.world ≡ 0
tainted_needs_token_example = tainted_needs_token counting clock louder_unasked broker refl refl

token_runs_once_example :
    let b =
      submit_all counting ((clock, louder_unasked) ∷ []) (submit counting clock louder broker).1 in
    (submit counting clock louder b).1.world ≡ b.world
unfolding needs_confirmation
token_runs_once_example =
    token_runs_once counting clock clock louder louder broker (decide louder_policy louder)
      (decide louder_policy louder) "YQ.YQ" token_payload spent ((clock, louder_unasked) ∷ []) refl
      louder-evaluated refl refl louder-accepted louder-evaluated refl refl

-- a spin button, set to 2 ^ 1024
abbrev huge_spin : ActionRequest
huge_spin = record {
  action = "desktop.spin_button.set_value";
  target = "Anzahl";
  arguments = ("value", int (pos (2 ^ 1024))) ∷ [];
  origin = local_voice;
  risk = medium;
  reversible = false;
  capability_token = none;
  expires_at = none;
}

huge_spin-named : accessible_name huge_spin ≡ ok tt
unfolding accessible_name text_eq normalize_spaces
huge_spin-named = refl

spin_value_escapes_example :
    submit counting clock huge_spin broker ≡ (raised overflow_error, broker)
spin_value_escapes_example =
    spin_value_escapes counting clock huge_spin broker (pos (2 ^ 1024)) refl refl huge_spin-named
      (omega arith) refl
