-- ===== src/Assistant.antt =====
-- `_synchronize_correction_gate` of src/clausis/assistant.py: how the correction slot of the runtime
-- and the gate that wakes and sleeps are kept together.
use clausis.Prelude.{ℕ, ◌+◌, ◌≤◌, ◌≡◌, ◌⊎◌, Bool, true, false, arith, if◌then◌else◌}
use clausis.Outcome.{Outcome, ok}
use clausis.Runtime.{VoiceRuntime, cancel_correction, correction_remaining}
use clausis.Audio.{ListeningState, LocalActivationController, extend_awake_for}
use clausis.Audio

-- CORRECTION_EXPIRY_GRACE_SECONDS, in microseconds
abbrev pub grace : ℕ
grace = 5000000

abbrev is_sleeping : ListeningState → Bool
is_sleeping Audio.sleeping = true
is_sleeping _ = false

module _ {World : Type 0} where
  -- The runtime and the gate after `_synchronize_correction_gate`; the runtime reads its clock at the
  -- first time, the gate at the second.
  unfoldable pub synchronize_correction_gate :
      ℕ
      → ℕ
      → VoiceRuntime World
      → LocalActivationController
      → Outcome (Unit {0}) × (VoiceRuntime World × LocalActivationController)
  synchronize_correction_gate now later v g =
      if is_sleeping g.state
      then (ok tt, (cancel_correction v, g))
      else if v.correction_pending
      then (let (came, g) = extend_awake_for later (correction_remaining now v + grace) g in
          (came, (v, g)))
      else (ok tt, (v, g))

  -- After the two are brought together no correction is pending, or the gate was stopped for good, or it
  -- is awake for at least five seconds longer than the correction has time.
  abbrev pub IsSynchronized :
      ℕ → VoiceRuntime World → VoiceRuntime World → LocalActivationController → Type 0
  IsSynchronized now before v g =
      (v.correction_pending ≡ false)
      ⊎ ((g.state ≡ Audio.stopped)
          ⊎ ((g.state ≡ Audio.awake)
              × (now + correction_remaining now before + grace ≤ g.deadline)))

  -- Bringing the runtime and the gate together never raises, where the correction has at most 120
  -- seconds left, and leaves them synchronized.
  pub synchronize_correction_gate-IsSynchronized :
      (now later : ℕ) (v : VoiceRuntime World) (g : LocalActivationController)
      → now ≤ later
      → correction_remaining now v ≤ 120000000
      → ((synchronize_correction_gate now later v g).0 ≡ ok tt)
        × IsSynchronized now v
            ((synchronize_correction_gate now later v g).1.0)
            ((synchronize_correction_gate now later v g).1.1)
  unfolding synchronize_correction_gate cancel_correction extend_awake_for
  synchronize_correction_gate-IsSynchronized now later v g order short = ground arith
