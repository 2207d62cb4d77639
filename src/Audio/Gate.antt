-- ===== src/Audio/Gate.antt =====
-- What passes the gate of src/clausis/audio.py.
use clausis.Prelude.{ℕ, ◌<◌, String, ◌≡◌, ◌≢◌, ◌⊎◌, Bool, true, false, none, some, arith}
use clausis.Stdlib.{Stdlib, Text}
use clausis.Audio.{
  AudioMode, AudioCapabilities, choose_audio_mode, ListeningState, LocalActivationController,
  ingest, normalize, is_stop_phrase, after_wake_phrase, activate, sleep, extend_awake_for,
}

-- The mode is never full duplex, speech never interrupts the output, and the audio is unavailable
-- only without microphone and speaker.
pub choose_audio_mode_lem :
    (c : AudioCapabilities)
    → ((choose_audio_mode c).mode ≢ AudioMode.full_duplex)
      × ((choose_audio_mode c).barge_in ≡ false)
      × (((choose_audio_mode c).mode ≢ AudioMode.unavailable)
          ⊎ ((c.microphone ≡ false) × (c.speaker ≡ false)))
unfolding choose_audio_mode
choose_audio_mode_lem c = ground arith

module _ ⦃py : Stdlib⦄ (now : ℕ) (transcript : String) (bypass : Bool)
    (g : LocalActivationController) where
  -- A stopped controller stays stopped whatever is said, and an extension or sleep leaves it as it is;
  -- it lets nothing through but the stop command.
  pub stopped_for_good :
      (duration : ℕ)
      → g.state ≡ ListeningState.stopped
      → ((ingest now transcript bypass g).1.state ≡ ListeningState.stopped)
        × (sleep g ≡ g)
        × ((extend_awake_for now duration g).1 ≡ g)
        × ((is_stop_phrase (normalize transcript) ≡ true)
            ⊎ ((ingest now transcript bypass g).0.command ≡ none))
  unfolding ingest sleep extend_awake_for
  stopped_for_good duration h = ground arith

  -- A text that the gate lets through is the stop command, after which the controller is stopped; or
  -- the controller was not stopped and its window starts anew, and the wake word was not needed, was
  -- said, or the controller was awake and its window still open.
  pub command_passed :
      (t : Text)
      → (ingest now transcript bypass g).0.command ≡ some t
      → ((is_stop_phrase (normalize transcript) ≡ true)
          × ((ingest now transcript bypass g).1.state ≡ ListeningState.stopped))
        ⊎ ((g.state ≢ ListeningState.stopped)
            × ((ingest now transcript bypass g).1 ≡ activate now g)
            × ((bypass ≡ true)
                ⊎ ((after_wake_phrase (normalize transcript) ≢ none)
                    ⊎ ((g.state ≡ ListeningState.awake) × (now < g.deadline)))))
  unfolding ingest sleep
  command_passed t h = ground arith
