-- ===== src/Tests/VoiceRuns.antt =====
-- Runs of the theorems on src/clausis/runtime.py and src/clausis/audio.py.
use clausis.Prelude.{
  ℕ, ◌+◌, ◌<◌, ◌≡◌, ◌≢◌, ◌⊎◌, refl, String, true, false, Option, none, some, str_eq, if◌then◌else◌,
}
use clausis.Outcome.{Exception, ok, raised, value_error}
use clausis.Text.{after_prefix, codes, normalize_spaces, casefold, text_eq, strip}
use clausis.Models.Request.{ActionRequest, local_voice}
use clausis.Runtime.{
  RuntimeState, VoiceRuntime, Partners, is_late, is_named, handle_routed, handle_answered,
  handle_transcript,
}
use clausis.Runtime.Correction.{
  IsConsistent, answered_with, slot_after, world_after, handle_transcript-IsConsistent,
}
use clausis.Audio.{
  AudioCapabilities, ListeningState, LocalActivationController, ingest, normalize, is_stop_phrase,
  is_sleep_phrase, after_wake_phrase, after_phrases, activate, sleep, extend_awake_for,
}
use clausis.Audio.Gate.{stopped_for_good, command_passed}
use clausis.Prelude.{◌≤◌, arith}
use clausis.Runtime.{correction_remaining}
use clausis.Assistant.{
  IsSynchronized, synchronize_correction_gate, synchronize_correction_gate-IsSynchronized,
}
use clausis.Tests.Fixtures.{ascii, louder, done}

abbrev spoken_request : String → ActionRequest
spoken_request action = record louder {
  action = action;
  origin = local_voice;
  capability_token = none;
}

-- a router that knows two phrases and raises at a third, a broker that counts
abbrev partners : Partners ℕ
partners = record {
  route = λ t.
      if str_eq t "korrigieren"
      then ok (some (spoken_request "voice.correct"))
      else if str_eq t "lauter"
      then ok (some (spoken_request "audio.volume.up"))
      else if str_eq t "diktiere"
      then raised (value_error "target is too long")
      else ok none;
  submit = λ r w. (ok done, w + 1);
  hermes_fallback = none;
  seconds_text = λ n. "30";
}

abbrev fresh_runtime : VoiceRuntime ℕ
fresh_runtime = record {
  correction_ttl = 30000000;
  state = RuntimeState.idle;
  last_result = none;
  correction_pending = false;
  correction_deadline = none;
  world = 0;
}

asks_correction :
    (handle_transcript partners 1000 "korrigieren" fresh_runtime).1.correction_pending ≡ true
unfolding handle_transcript handle_answered handle_routed
asks_correction = refl

slot_after_example :
    (answered_with "voice.correct" (partners.route "korrigieren") ≡ true)
    ⊎ ((false ≡ true)
        × (((is_late 1000 fresh_runtime ≡ false)
              × (answered_with "voice.repeat" (partners.route "korrigieren") ≡ true))
            ⊎ ((e : Exception) × (partners.route "korrigieren" ≡ raised e))))
slot_after_example = slot_after partners 1000 "korrigieren" fresh_runtime asks_correction

world_after_example :
    ((handle_transcript partners 1000 "lauter" fresh_runtime).1.world ≡ 0)
    ⊎ ((is_late 1000 fresh_runtime ≡ false)
        × ((handle_transcript partners 1000 "lauter" fresh_runtime).1.correction_pending ≡ false)
        × ((request : Option ActionRequest) × (partners.route "lauter" ≡ ok request)
            × (is_named "voice.stop" request ≡ false)
            × (is_named "voice.cancel" request ≡ false)
            × (is_named "voice.correct" request ≡ false)
            × (is_named "voice.repeat" request ≡ false)))
world_after_example = world_after partners 1000 "lauter" fresh_runtime

fresh-IsConsistent : IsConsistent fresh_runtime
fresh-IsConsistent = record { deadline_set = λ h. absurd (cc h); slot_open = λ h. absurd (cc h) }

handle_transcript-IsConsistent_example :
    IsConsistent (handle_transcript partners 1000 "korrigieren" fresh_runtime).1
handle_transcript-IsConsistent_example =
    handle_transcript-IsConsistent partners 1000 "korrigieren" fresh_runtime fresh-IsConsistent

abbrev headset : AudioCapabilities
headset = record {
  microphone = true;
  speaker = true;
  shared_clock = true;
  echo_cancellation = true;
  hardware_certified = true;
}

abbrev gate : ListeningState → LocalActivationController
gate s = record { active = 25000000; deadline = 0; state = s }

stopped_for_good_example :
    ((ingest 5 "Hallo Clausis, lauter" false (gate ListeningState.stopped)).1.state
      ≡ ListeningState.stopped)
    × (sleep (gate ListeningState.stopped) ≡ gate ListeningState.stopped)
    × ((extend_awake_for 5 1000000 (gate ListeningState.stopped)).1 ≡ gate ListeningState.stopped)
    × ((is_stop_phrase (normalize "Hallo Clausis, lauter") ≡ true)
        ⊎ ((ingest 5 "Hallo Clausis, lauter" false (gate ListeningState.stopped)).0.command ≡ none))
stopped_for_good_example =
    stopped_for_good 5 "Hallo Clausis, lauter" false (gate ListeningState.stopped) 1000000 refl

lets_through :
    (ingest 5 "Hallo Clausis, lauter" false (gate ListeningState.sleeping)).0.command
    ≡ some (codes "lauter")
unfolding ingest normalize normalize_spaces casefold is_stop_phrase is_sleep_phrase
    after_wake_phrase after_phrases after_prefix text_eq strip
lets_through = refl

command_passed_example :
    ((is_stop_phrase (normalize "Hallo Clausis, lauter") ≡ true)
      × ((ingest 5 "Hallo Clausis, lauter" false (gate ListeningState.sleeping)).1.state
          ≡ ListeningState.stopped))
    ⊎ ((ListeningState.sleeping ≢ ListeningState.stopped)
        × ((ingest 5 "Hallo Clausis, lauter" false (gate ListeningState.sleeping)).1
            ≡ activate 5 (gate ListeningState.sleeping))
        × ((false ≡ true)
            ⊎ ((after_wake_phrase (normalize "Hallo Clausis, lauter") ≢ none)
                ⊎ ((ListeningState.sleeping ≡ ListeningState.awake) × (5 < 0)))))
command_passed_example =
    command_passed 5 "Hallo Clausis, lauter" false (gate ListeningState.sleeping) (codes "lauter")
      lets_through

abbrev correcting_runtime : VoiceRuntime ℕ
correcting_runtime = record {
  correction_ttl = 30000000;
  state = RuntimeState.correcting;
  last_result = none;
  correction_pending = true;
  correction_deadline = some 40000000;
  world = 0;
}

abbrev woken_gate : LocalActivationController
woken_gate = record { active = 8000000; deadline = 12000000; state = ListeningState.awake }

within_slot : correction_remaining 10000000 correcting_runtime ≤ 120000000
unfolding correction_remaining
within_slot = omega arith

synchronize_correction_gate-IsSynchronized_example :
    ((synchronize_correction_gate 10000000 10000001 correcting_runtime woken_gate).0 ≡ ok tt)
    × IsSynchronized 10000000 correcting_runtime
        ((synchronize_correction_gate 10000000 10000001 correcting_runtime woken_gate).1.0)
        ((synchronize_correction_gate 10000000 10000001 correcting_runtime woken_gate).1.1)
synchronize_correction_gate-IsSynchronized_example =
    synchronize_correction_gate-IsSynchronized 10000000 10000001 correcting_runtime woken_gate
      (omega arith) within_slot
