-- ===== src/Runtime/Correction.antt =====
-- The correction slot of `VoiceRuntime`, src/clausis/runtime.py: when an utterance is carried out, and
-- how long the slot stays open.
use clausis.Prelude.{
  ℕ, ◌+◌, String, ◌≡◌, ◌⊎◌, refl, Bool, true, false, Option, none, some, arith, if◌then◌else◌, inl,
  inr,
}
use clausis.Outcome.{Exception, Outcome, ok, raised}
use clausis.Models.Request.{ActionRequest, ActionResult}
use clausis.Runtime.{
  RuntimeState, VoiceRuntime, Partners, clear_correction, called, is_late, is_named, forward,
  handle_routed, handle_answered, handle_transcript, cancel_correction, correction_remaining,
  idle_if_correcting,
}

-- What the runtime keeps between two calls: an open slot has a deadline, and the state `correcting`
-- means that the slot is open.
pub record IsConsistent {World : Type 0} (v : VoiceRuntime World) : Type 0 where
  pub deadline_set : v.correction_pending ≡ true → (d : ℕ) × (v.correction_deadline ≡ some d)
  pub slot_open : v.state ≡ RuntimeState.correcting → v.correction_pending ≡ true

-- the router has answered with a request for the action
abbrev pub answered_with : String → Outcome (Option ActionRequest) → Bool
answered_with name (raised e) = false
answered_with name (ok request) = is_named name request

module _ {World : Type 0} (x : Partners World) (now : ℕ) (transcript : String) where
  -- what a call of the broker or of Hermes does to the slot
  abbrev Closed : VoiceRuntime World → Type 0
  Closed v = (v.correction_pending ≡ false) × (v.correction_deadline ≡ none)

  called-Closed :
      (v : VoiceRuntime World) (o : Outcome ActionResult × World) → Closed v → Closed (called v o).1
  called-Closed v (ok result, w) h = h
  called-Closed v (raised e, w) h = h

  forward-Closed :
      (request : Option ActionRequest) (v : VoiceRuntime World)
      (h : Option (String → World → Outcome ActionResult × World))
      → x.hermes_fallback ≡ h
      → Closed v
      → Closed (forward x transcript request v).1
  forward-Closed (some r) v h e c = called-Closed v (x.submit r v.world) c
  forward-Closed none v none e c = rw e c
  forward-Closed none v (some f) e c = rw e (called-Closed v (f transcript v.world) c)

  slot_after_answer :
      (o : Outcome (Option ActionRequest)) (v : VoiceRuntime World)
      → (handle_answered x now transcript o
          (record v { state = RuntimeState.processing })).1.correction_pending
        ≡ true
      → (answered_with "voice.correct" o ≡ true)
        ⊎ ((v.correction_pending ≡ true)
            × (((is_late now v ≡ false) × (answered_with "voice.repeat" o ≡ true))
                ⊎ ((e : Exception) × (o ≡ raised e))))
  unfolding handle_answered handle_routed
  slot_after_answer (raised e) v h = inr (h, inr (e, refl))
  slot_after_answer (ok request) v h =
      let closed =
        (forward-Closed request (clear_correction (record v { state = RuntimeState.processing }))
          x.hermes_fallback refl (refl, refl)).0 in
      ground (arith, closed)

  -- After a round the slot is open only if the utterance asked for a correction, or if it was open
  -- before and the utterance asked in time for a repetition or the router raised an exception.
  pub slot_after :
      (v : VoiceRuntime World)
      → (handle_transcript x now transcript v).1.correction_pending ≡ true
      → (answered_with "voice.correct" (x.route transcript) ≡ true)
        ⊎ ((v.correction_pending ≡ true)
            × (((is_late now v ≡ false)
                  × (answered_with "voice.repeat" (x.route transcript) ≡ true))
                ⊎ ((e : Exception) × (x.route transcript ≡ raised e))))
  unfolding handle_transcript
  slot_after v h = slot_after_answer (x.route transcript) v h

  world_after_answer :
      (o : Outcome (Option ActionRequest)) (v : VoiceRuntime World)
      → ((handle_answered x now transcript o (record v { state = RuntimeState.processing })).1.world
          ≡ v.world)
        ⊎ ((is_late now v ≡ false)
            × ((handle_answered x now transcript o
                  (record v { state = RuntimeState.processing })).1.correction_pending
                ≡ false)
            × ((request : Option ActionRequest) × (o ≡ ok request)
                × (is_named "voice.stop" request ≡ false)
                × (is_named "voice.cancel" request ≡ false)
                × (is_named "voice.correct" request ≡ false)
                × (is_named "voice.repeat" request ≡ false)))
  unfolding handle_answered handle_routed
  world_after_answer (raised e) v = inl refl
  world_after_answer (ok request) v =
      let closed =
        (forward-Closed request (clear_correction (record v { state = RuntimeState.processing }))
          x.hermes_fallback refl (refl, refl)).0 in
      elim (split closed) [
        | inl same ↦ inl same
        | inr (a, b, c) ↦ inr (a, b, (request, refl, c.0, c.1, c.2, c.3))
      ]
    where
      split :
          (forward x transcript request (
              clear_correction (record v { state = RuntimeState.processing }))).1.correction_pending
            ≡ false
          → ((handle_routed x now transcript request
                (record v { state = RuntimeState.processing })).1.world
              ≡ v.world)
            ⊎ ((is_late now v ≡ false)
                × ((handle_routed x now transcript request
                      (record v { state = RuntimeState.processing })).1.correction_pending
                    ≡ false)
                × ((is_named "voice.stop" request ≡ false)
                    × (is_named "voice.cancel" request ≡ false)
                    × (is_named "voice.correct" request ≡ false)
                    × (is_named "voice.repeat" request ≡ false)))
      split closed = ground (arith, closed)

  -- An utterance changes the world only if the router raises nothing, the utterance is none of the
  -- local commands stop, cancel, correct and repeat, and no open slot has run out; then the slot is
  -- closed.
  pub world_after :
      (v : VoiceRuntime World)
      → ((handle_transcript x now transcript v).1.world ≡ v.world)
        ⊎ ((is_late now v ≡ false)
            × ((handle_transcript x now transcript v).1.correction_pending ≡ false)
            × ((request : Option ActionRequest) × (x.route transcript ≡ ok request)
                × (is_named "voice.stop" request ≡ false)
                × (is_named "voice.cancel" request ≡ false)
                × (is_named "voice.correct" request ≡ false)
                × (is_named "voice.repeat" request ≡ false)))
  unfolding handle_transcript
  world_after v = world_after_answer (x.route transcript) v

  called-IsConsistent :
      (v : VoiceRuntime World) (o : Outcome ActionResult × World)
      → v.state ≡ RuntimeState.processing
      → Closed v
      → IsConsistent (called v o).1
  called-IsConsistent v (ok result, w) s c = record {
    deadline_set = λ h. absurd (cc (c.0, h));
    slot_open = λ h. absurd (cc h);
  }
  called-IsConsistent v (raised e, w) s c = record {
    deadline_set = λ h. absurd (cc (c.0, h));
    slot_open = λ h. absurd (cc (s, h));
  }

  forward-IsConsistent :
      (request : Option ActionRequest) (v : VoiceRuntime World)
      (h : Option (String → World → Outcome ActionResult × World))
      → x.hermes_fallback ≡ h
      → v.state ≡ RuntimeState.processing
      → Closed v
      → IsConsistent (forward x transcript request v).1
  forward-IsConsistent (some r) v h e s c = called-IsConsistent v (x.submit r v.world) s c
  forward-IsConsistent none v none e s c =
      rw e (record { deadline_set = λ h. absurd (cc (c.0, h)); slot_open = λ h. absurd (cc h) })
  forward-IsConsistent none v (some f) e s c =
      rw e (called-IsConsistent v (f transcript v.world) s c)

  handle_routed-IsConsistent :
      (request : Option ActionRequest) (v : VoiceRuntime World)
      → IsConsistent v
      → IsConsistent
          (handle_routed x now transcript request (record v { state = RuntimeState.processing })).1
  unfolding handle_routed
  handle_routed-IsConsistent request v c =
      either (is_named "voice.stop" request) _ _ (local (λ h. absurd (cc h)) refl) (
        either (is_named "voice.cancel" request) _ _ (local (λ h. absurd (cc h)) refl) (
          either (is_named "voice.correct" request) _ _ corrected (
            either (is_late now v) _ _ (local (λ h. absurd (cc h)) refl)
              (either (is_named "voice.repeat" request) _ _ repeated forwarded))))
    where
      either :
          (b : Bool) (s t : Outcome ActionResult × VoiceRuntime World)
          → IsConsistent s.1
          → IsConsistent t.1
          → IsConsistent (if b then s else t).1
      either true _ _ p q = p
      either false _ _ p q = q

      -- a round that closes the slot and leaves another state
      local :
          {a : VoiceRuntime World}
          → (a.state ≡ RuntimeState.correcting → a.correction_pending ≡ true)
          → a.correction_pending ≡ false
          → IsConsistent a
      local o p = record { deadline_set = λ h. absurd (cc (p, h)); slot_open = o }

      corrected :
          {last : Option ActionResult}
          → IsConsistent (record v {
            last_result = last;
            state = RuntimeState.correcting;
            correction_pending = true;
            correction_deadline = some (now + v.correction_ttl);
          })
      corrected = record {
        deadline_set = λ h. (now + v.correction_ttl, refl);
        slot_open = λ h. refl;
      }

      repeated : IsConsistent (record v {
        state = if v.correction_pending then RuntimeState.correcting else RuntimeState.idle;
      })
      repeated = record { deadline_set = c.deadline_set; slot_open = λ h. ground arith }

      forwarded :
          IsConsistent
            (forward x transcript request
              (clear_correction (record v { state = RuntimeState.processing }))).1
      forwarded =
          forward-IsConsistent request
            (clear_correction (record v { state = RuntimeState.processing })) x.hermes_fallback refl
            refl (refl, refl)

  handle_answered-IsConsistent :
      (o : Outcome (Option ActionRequest)) (v : VoiceRuntime World)
      → IsConsistent v
      → IsConsistent
          (handle_answered x now transcript o (record v { state = RuntimeState.processing })).1
  unfolding handle_answered
  handle_answered-IsConsistent (raised e) v c = record {
    deadline_set = c.deadline_set;
    slot_open = λ h. absurd (cc h);
  }
  handle_answered-IsConsistent (ok request) v c = handle_routed-IsConsistent request v c

  -- Every round keeps the runtime consistent, whatever the utterance, the time and the answers of the
  -- router, of the broker and of Hermes, exceptions included.
  pub handle_transcript-IsConsistent :
      (v : VoiceRuntime World)
      → IsConsistent v
      → IsConsistent (handle_transcript x now transcript v).1
  unfolding handle_transcript
  handle_transcript-IsConsistent v c = handle_answered-IsConsistent (x.route transcript) v c

module _ {World : Type 0} where
  -- Putting the wake gate to sleep keeps the runtime consistent, and leaves no time for a
  -- correction.
  pub cancel_correction-IsConsistent :
      (now : ℕ) (v : VoiceRuntime World)
      → IsConsistent v
      → IsConsistent (cancel_correction v) × (correction_remaining now (cancel_correction v) ≡ 0)
  unfolding cancel_correction correction_remaining
  cancel_correction-IsConsistent now v c =
      (record { deadline_set = λ h. absurd (cc h); slot_open = λ h. by_state v.state h }, refl)
    where
      by_state : (s : RuntimeState) → idle_if_correcting s ≡ RuntimeState.correcting → false ≡ true
      by_state RuntimeState.correcting h = absurd (cc h)
      by_state RuntimeState.idle h = absurd (cc h)
      by_state RuntimeState.listening h = absurd (cc h)
      by_state RuntimeState.processing h = absurd (cc h)
      by_state RuntimeState.speaking h = absurd (cc h)
      by_state RuntimeState.stopped h = absurd (cc h)
