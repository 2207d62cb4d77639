-- ===== src/Runtime.antt =====
-- `VoiceRuntime` of src/clausis/runtime.py. The router, the broker and the fallback to Hermes belong
-- to the frame: what they answer is an argument of one round.
pub mod Correction
pub mod Offline
use Prim.Native.String
use clausis.Prelude.{
  ℕ, ◌+◌, ◌-◌, String, Bool, true, false, ◌||◌, not, Option, none, some, [], if◌then◌else◌, leb,
  ltb, str_eq,
}
use clausis.Outcome.{Outcome, ok, raised, reject_if, ◌>>=◌, ◌>>◌}
use clausis.Models.Request.{ActionRequest, ActionResult}

pub data RuntimeState : Type 0 where
  idle listening processing speaking correcting stopped : RuntimeState

-- `_correction_pending` with `_correction_deadline`, whose type allows a deadline that is missing.
pub record VoiceRuntime (World : Type 0) : Type 0 where
  pub correction_ttl : ℕ
  pub state : RuntimeState
  pub last_result : Option ActionResult
  pub correction_pending : Bool
  pub correction_deadline : Option ℕ
  pub world : World

-- The objects that the runtime calls; a call gives the result or an exception, and the new world. The
-- router raises where a request does not pass the checks of its constructor.
pub record Partners (World : Type 0) : Type 0 where
  pub route : String → Outcome (Option ActionRequest)
  pub submit : ActionRequest → World → Outcome ActionResult × World
  pub hermes_fallback : Option (String → World → Outcome ActionResult × World)
  -- f"{seconds:g}" of the correction window
  pub seconds_text : ℕ → String

-- ActionResult(status, message, action)
abbrev pub result_of : String → String → String → ActionResult
result_of status message action = record {
  status = status;
  message = message;
  action = action;
  confirmation_id = none;
  details = [];
}

abbrev pub idle_if_correcting : RuntimeState → RuntimeState
idle_if_correcting correcting = idle
idle_if_correcting s = s

abbrev remaining : Bool → Option ℕ → ℕ → ℕ
remaining false deadline now = 0
remaining true none now = 0
remaining true (some deadline) now = deadline - now

abbrev correction_message : String → String
correction_message seconds = String.◌++◌ "Bitte sagen Sie jetzt innerhalb von " (
    String.◌++◌ seconds
      " Sekunden genau einen korrigierten Befehl. Die vorherige Aktion wird nicht automatisch rückgängig gemacht. Sagen Sie Abbrechen, um die Korrektur zu beenden.")

-- `self._correction_deadline is None or self._clock() >= self._correction_deadline`
abbrev pub is_over : Option ℕ → ℕ → Bool
is_over none now = true
is_over (some deadline) now = leb deadline now

abbrev repeated_result : String → Option ActionResult → ActionResult
repeated_result action none = result_of "completed" "Es gibt noch nichts zu wiederholen." action
repeated_result action (some last) = result_of "repeated" last.message action

-- request is not None and request.action == name
abbrev pub is_named : String → Option ActionRequest → Bool
is_named name none = false
is_named name (some r) = str_eq r.action name

-- the action of a request that is named
abbrev action_of : Option ActionRequest → String
action_of none = ""
action_of (some r) = r.action

module _ {World : Type 0} where
  -- VoiceRuntime.__init__, for a finite window in microseconds
  unfoldable pub start : ℕ → World → Outcome (VoiceRuntime World)
  start ttl w = do
    reject_if (ltb ttl 5000000 || ltb 120000000 ttl)
        "correction TTL must be between 5 and 120 seconds"
    ok (record {
      correction_ttl = ttl;
      state = idle;
      last_result = none;
      correction_pending = false;
      correction_deadline = none;
      world = w;
    })

  abbrev pub clear_correction : VoiceRuntime World → VoiceRuntime World
  clear_correction v = record v { correction_pending = false; correction_deadline = none }

  unfoldable pub cancel_correction : VoiceRuntime World → VoiceRuntime World
  cancel_correction v = record (clear_correction v) { state = idle_if_correcting v.state }

  -- max(0.0, deadline - clock)
  unfoldable pub correction_remaining : ℕ → VoiceRuntime World → ℕ
  correction_remaining now v = remaining v.correction_pending v.correction_deadline now

  -- sets the state and the last result, and returns the result
  abbrev pub conclude :
      RuntimeState → ActionResult → VoiceRuntime World → Outcome ActionResult × VoiceRuntime World
  conclude s result v = (ok result, record v { state = s; last_result = some result })

  -- The result of the broker or of Hermes. An exception leaves the state at `processing`.
  abbrev pub called :
      VoiceRuntime World → Outcome ActionResult × World → Outcome ActionResult × VoiceRuntime World
  called v (ok result, w) = conclude idle result (record v { world = w })
  called v (raised e, w) = (raised e, record v { world = w })

  abbrev stop : String → VoiceRuntime World → Outcome ActionResult × VoiceRuntime World
  stop action v = (
    ok (result_of "stopped" "Hermes wurde sofort gestoppt." action),
    record (clear_correction v) { state = stopped },
  )

  abbrev cancel : String → VoiceRuntime World → Outcome ActionResult × VoiceRuntime World
  cancel action v =
      conclude idle (result_of "completed" "Der aktuelle Sprachdialog wurde abgebrochen." action)
        (clear_correction v)

  abbrev correct :
      Partners World → ℕ → String → VoiceRuntime World → Outcome ActionResult × VoiceRuntime World
  correct x now action v =
      conclude correcting
        (result_of "correction_requested" (correction_message (x.seconds_text v.correction_ttl))
          action)
        (record v {
          correction_pending = true;
          correction_deadline = some (now + v.correction_ttl);
        })

  abbrev pub is_late : ℕ → VoiceRuntime World → Bool
  is_late now v = if v.correction_pending then is_over v.correction_deadline now else false

  abbrev expire : VoiceRuntime World → Outcome ActionResult × VoiceRuntime World
  expire v =
      conclude idle
        (result_of "correction_expired"
          "Die Korrekturzeit ist abgelaufen. Die verspätete Äußerung wurde nicht ausgeführt. Sagen Sie Korrigieren, um neu zu beginnen."
          "voice.correct")
        (clear_correction v)

  abbrev repeat : String → VoiceRuntime World → Outcome ActionResult × VoiceRuntime World
  repeat action v = (
    ok (repeated_result action v.last_result),
    record v { state = if v.correction_pending then correcting else idle },
  )

  abbrev unmatched :
      Partners World
      → String
      → VoiceRuntime World
      → Option (String → World → Outcome ActionResult × World)
      → Outcome ActionResult × VoiceRuntime World
  unmatched x transcript v none =
      conclude idle
        (result_of "offline_unmatched" "Dieser Befehl ist im Offline-Modus nicht verfügbar."
          "voice.unmatched")
        v
  unmatched x transcript v (some hermes) = called v (hermes transcript v.world)

  -- The end of the round, after the correction slot is cleared.
  abbrev pub forward :
      Partners World
      → String
      → Option ActionRequest
      → VoiceRuntime World
      → Outcome ActionResult × VoiceRuntime World
  forward x transcript (some r) v = called v (x.submit r v.world)
  forward x transcript none v = unmatched x transcript v x.hermes_fallback

  -- The round with the routed request, at the time `now`.
  unfoldable pub handle_routed :
      Partners World
      → ℕ
      → String
      → Option ActionRequest
      → VoiceRuntime World
      → Outcome ActionResult × VoiceRuntime World
  handle_routed x now transcript request v =
      if is_named "voice.stop" request
      then stop (action_of request) v
      else if is_named "voice.cancel" request
      then cancel (action_of request) v
      else if is_named "voice.correct" request
      then correct x now (action_of request) v
      else if is_late now v
      then expire v
      else if is_named "voice.repeat" request
      then repeat (action_of request) v
      else forward x transcript request (clear_correction v)

  -- The round after the router has answered. What the router raises leaves the round at once.
  unfoldable pub handle_answered :
      Partners World
      → ℕ
      → String
      → Outcome (Option ActionRequest)
      → VoiceRuntime World
      → Outcome ActionResult × VoiceRuntime World
  handle_answered x now transcript (raised e) v = (raised e, v)
  handle_answered x now transcript (ok request) v = handle_routed x now transcript request v

  -- VoiceRuntime.handle_transcript
  unfoldable pub handle_transcript :
      Partners World → ℕ → String → VoiceRuntime World → Outcome ActionResult × VoiceRuntime World
  handle_transcript x now transcript v =
      handle_answered x now transcript (x.route transcript) (record v { state = processing })
