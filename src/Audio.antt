-- ===== src/Audio.antt =====
-- src/clausis/audio.py: the choice of the audio mode and the local gate that wakes, sleeps and stops.
-- Times are microseconds; the inspection of the sound devices is not modelled.
pub mod Gate
use clausis.Prelude.{
  ℕ, ◌+◌, ◌<◌, String, Bool, true, false, ◌&&◌, ◌||◌, not, List, [], ◌∷◌, ◌++◌, Option, none, some,
  map, if◌then◌else◌, ◌==◌, leb, ltb, is_empty, max,
}
use clausis.Outcome.{Outcome, ok, raised, value_error, reject_if, ◌>>=◌, ◌>>◌}
use clausis.Stdlib.{Stdlib, Text}
use clausis.Text.{after_prefix, codes, text_elem, text_eq, strip, casefold, normalize_spaces}

pub data AudioMode : Type 0 where
  full_duplex half_duplex output_only unavailable : AudioMode

pub data ListeningState : Type 0 where
  sleeping awake stopped : ListeningState

pub record AudioCapabilities : Type 0 where
  pub microphone : Bool
  pub speaker : Bool
  pub shared_clock : Bool
  pub echo_cancellation : Bool
  pub hardware_certified : Bool

pub record AudioDecision : Type 0 where
  pub mode : AudioMode
  pub announcement : String
  pub barge_in : Bool

abbrev deciding : AudioMode → String → AudioDecision
deciding mode announcement = record { mode = mode; announcement = announcement; barge_in = false }

unfoldable pub choose_audio_mode : AudioCapabilities → AudioDecision
choose_audio_mode c =
    if not c.speaker && not c.microphone
    then deciding unavailable "Audio ist nicht verfügbar. Tastatur und Orca bleiben aktiv."
    else if not c.microphone
    then deciding output_only "Kein Mikrofon erkannt. Spracheingabe ist ausgeschaltet."
    else if not c.speaker
    then deciding half_duplex "Kein Lautsprecher erkannt. Antworten werden nur angezeigt."
    else if c.hardware_certified && c.shared_clock && c.echo_cancellation
    then deciding half_duplex
        "Vollduplex-Hardware wurde erkannt. Bis der lokale Unterbrechungsdetektor geprüft ist, verwendet Clausis sicheren Halbduplexbetrieb."
    else deciding half_duplex
        "Echounterdrückung ist nicht zertifiziert. Das System verwendet sicheren Halbduplexbetrieb."

pub record ActivationResult : Type 0 where
  pub command : Option Text
  pub announcement : String
  pub stopped_now : Bool

pub record LocalActivationController : Type 0 where
  pub active : ℕ
  pub deadline : ℕ
  pub state : ListeningState

-- LocalActivationController.__init__
unfoldable pub new_controller : ℕ → Outcome LocalActivationController
new_controller active = do
  reject_if (leb active 0) "active_seconds must be positive"
  ok (record { active = active; deadline = 0; state = sleeping })

-- WAKE_PHRASES, the longest first
abbrev pub wake_phrases : List Text
wake_phrases =
    codes "hallo clausis" ∷ codes "hello clausis" ∷ codes "hey clausis" ∷ codes "clausis" ∷ []

abbrev pub stop_phrases : List Text
stop_phrases =
    codes "stopp clausis"
    ∷ codes "clausis stopp"
    ∷ codes "stop clausis"
    ∷ codes "stopp hermes"
    ∷ codes "hermes stopp"
    ∷ codes "stop hermes"
    ∷ []

abbrev pub sleep_phrases : List Text
sleep_phrases =
    codes "geh schlafen"
    ∷ codes "nicht mehr zuhören"
    ∷ codes "stop listening"
    ∷ codes "go to sleep"
    ∷ []

unfoldable pub is_stop_phrase : Text → Bool
is_stop_phrase normalized = text_elem normalized stop_phrases

unfoldable pub is_sleep_phrase : Text → Bool
is_sleep_phrase normalized = text_elem normalized sleep_phrases

-- the loop of `_after_wake_phrase`
unfoldable pub after_phrases : List Text → Text → Option Text
after_phrases [] normalized = none
after_phrases (phrase ∷ phrases) normalized =
    let rest = after_phrases phrases normalized in
    if text_eq normalized phrase
    then some []
    else elim (after_prefix (phrase ++ b' ' ∷ []) normalized) [ some t ↦ some t | none ↦ rest ]

unfoldable pub after_wake_phrase : Text → Option Text
after_wake_phrase = after_phrases wake_phrases

abbrev is_stopped : ListeningState → Bool
is_stopped stopped = true
is_stopped _ = false

abbrev is_awake : ListeningState → Bool
is_awake awake = true
is_awake _ = false

abbrev is_sleeping : ListeningState → Bool
is_sleeping sleeping = true
is_sleeping _ = false

-- [,.:;!?-]
abbrev is_punctuation : ℕ → Bool
is_punctuation c =
    c == b',' || c == b'.' || c == b':' || c == b';' || c == b'!' || c == b'?' || c == b'-'

abbrev silent : ActivationResult
silent = record { command = none; announcement = ""; stopped_now = false }

abbrev spoken : Text → ActivationResult
spoken t = record { command = some t; announcement = ""; stopped_now = false }

abbrev announced : String → ActivationResult
announced a = record { command = none; announcement = a; stopped_now = false }

abbrev pub activate : ℕ → LocalActivationController → LocalActivationController
activate now g = record g { state = awake; deadline = now + g.active }

unfoldable pub sleep : LocalActivationController → LocalActivationController
sleep g = if is_stopped g.state then g else record g { state = sleeping; deadline = 0 }

-- extend_awake_for, with a duration that is a finite number
unfoldable pub extend_awake_for :
    ℕ → ℕ → LocalActivationController → Outcome (Unit {0}) × LocalActivationController
extend_awake_for now duration g =
    if leb duration 0 || ltb 125000000 duration
    then (raised (value_error "follow-up duration must be between 0 and 125 seconds"), g)
    else if is_stopped g.state
    then (ok tt, g)
    else (ok tt, record g { state = awake; deadline = max g.deadline (now + duration) })

-- The wake window that has run out closes.
abbrev timed : ℕ → LocalActivationController → LocalActivationController
timed now g = if is_awake g.state && leb g.deadline now then record g { state = sleeping } else g

abbrev woken : Text → ActivationResult
woken [] = announced "Ja, ich höre zu."
woken (c ∷ t) = spoken (c ∷ t)

module _ ⦃py : Stdlib⦄ where
  -- LocalActivationController.normalize; each mark becomes a space, and the words are joined by one
  unfoldable pub normalize : String → Text
  normalize s =
      normalize_spaces (map (λ c. if is_punctuation c then b' ' else c) (casefold (codes s)))

  -- The end of `ingest`, by what follows a wake phrase.
  abbrev pub after_wake :
      ℕ
      → String
      → LocalActivationController
      → Option Text
      → ActivationResult × LocalActivationController
  after_wake now transcript g (some t) = (woken t, activate now g)
  after_wake now transcript g none =
      if is_sleeping g.state
      then (silent, g)
      else (spoken (strip (codes transcript)), activate now g)

  -- LocalActivationController.ingest
  unfoldable pub ingest :
      ℕ → String → Bool → LocalActivationController → ActivationResult × LocalActivationController
  ingest now transcript bypass_wake g =
      let normalized = normalize transcript in
      let g' = timed now g in
      if is_empty normalized
      then (silent, g)
      else if is_stop_phrase normalized
      then (
        record {
          command = some (codes "stopp hermes");
          announcement = "Clausis wurde lokal gestoppt.";
          stopped_now = true;
        },
        record g { state = stopped },
      )
      else if is_stopped g.state
      then (silent, g)
      else if is_sleep_phrase normalized
      then (announced "Clausis hört nur noch auf das Aktivierungswort.", sleep g')
      else if bypass_wake
      then (spoken (strip (codes transcript)), activate now g')
      else after_wake now transcript g' (after_wake_phrase normalized)
