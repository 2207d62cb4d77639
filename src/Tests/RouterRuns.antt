-- ===== src/Tests/RouterRuns.antt =====
-- Runs of the theorems on src/clausis/router.py.
use clausis.Prelude.{ℕ, ◌≡◌, ◌⊎◌, refl, true, false, [], none, some, str_eq, if◌then◌else◌}
use clausis.Outcome.{ok}
use clausis.Models.Request.{ActionRequest, low, local_voice}
use clausis.Policy.Rule.{ActionPolicy}
use clausis.Policy.Evaluate.{policy_of}
use clausis.Policy.Evaluate.Decisions.{IsHarmless}
use clausis.Broker.Submit.{Broker}
use clausis.Router.Builder.{Patterns, request_of}
use clausis.Router.Route.{anchored, route}
use clausis.Router.Sound.{IsAdmissible, route-evaluate}
use clausis.Runtime.{RuntimeState, VoiceRuntime, Partners, handle_transcript}
use clausis.Runtime.Offline.{offline, spoken-IsHarmless}
use clausis.Tests.Fixtures.{ascii, counting, broker, clock}

-- Matching in which only the text of one pattern matches, whatever it is.
abbrev only_louder : Patterns
only_louder = record {
  fullmatch = λ p t. if str_eq p (anchored "lauter") then some [] else none;
  to_float = λ s. none;
}

abbrev request : ActionRequest
request = request_of "audio.volume.up" "" [] low true

louder_routed : route only_louder "lauter" ≡ ok (some request)
unfolding route clausis.Text.normalize_spaces clausis.Text.strip clausis.Router.Route.find_command
    clausis.Router.Commands.commands clausis.Router.Route.first_match clausis.Router.Build.build
    clausis.Models.Request.post_init clausis.Models.Request.is_action
    clausis.Models.Request.is_target
louder_routed = refl

route-evaluate_example : IsAdmissible request
route-evaluate_example = route-evaluate only_louder "lauter" request louder_routed

abbrev listening : VoiceRuntime (Broker ℕ)
listening = record {
  correction_ttl = 30000000;
  state = RuntimeState.idle;
  last_result = none;
  correction_pending = false;
  correction_deadline = none;
  world = broker;
}

abbrev alone : Partners (Broker ℕ)
alone = offline counting clock only_louder (λ n. "30")

spoken-IsHarmless_example :
    ((handle_transcript alone 1000 "lauter" listening).1.world.world ≡ 0)
    ⊎ ((r : ActionRequest) × (p : ActionPolicy) × (route only_louder "lauter" ≡ ok (some r))
        × (policy_of r.action ≡ some p)
        × IsHarmless p local_voice
        × ((handle_transcript alone 1000 "lauter" listening).1.world.world
            ≡ (counting.execute r p 0).1))
spoken-IsHarmless_example =
    spoken-IsHarmless counting clock only_louder (λ n. "30") 1000 "lauter" listening
