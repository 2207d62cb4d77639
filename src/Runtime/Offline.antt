-- ===== src/Runtime/Offline.antt =====
-- `VoiceRuntime` of src/clausis/runtime.py as its `main` sets it up: with the offline router, the broker
-- and no Hermes.
use clausis.Prelude.{
  ℕ, String, ◌≡◌, ◌⊎◌, inl, inr, refl, sym, ap, ◌∙◌, subst, Option, none, some, arith,
}
use clausis.Outcome.{Outcome, ok, raised}
use clausis.Stdlib.{Stdlib}
use clausis.Models.Request.{ActionRequest, ActionResult, local_voice}
use clausis.Policy.Rule.{ActionPolicy}
use clausis.Policy.Evaluate.{policy_of}
use clausis.Policy.Evaluate.Decisions.{IsHarmless, evaluate_sound}
use clausis.Broker.Executor.{Executor}
use clausis.Broker.Submit.{Clock, Broker, submit, token_text}
use clausis.Broker.Authorisation.{IsAuthorised, submit-Effect}
use clausis.Router.Builder.{Patterns}
use clausis.Router.Route.{route}
use clausis.Router.Sound.{route-evaluate}
use clausis.Runtime.{
  RuntimeState, VoiceRuntime, Partners, clear_correction, called, handle_routed, handle_answered,
  handle_transcript,
}

called-world :
    {World : Type 0} (v : VoiceRuntime World) (o : Outcome ActionResult × World)
    → (called v o).1.world ≡ o.1
called-world v (ok result, w) = refl
called-world v (raised e, w) = refl

module _ ⦃py : Stdlib⦄ {World : Type 0} (x : Executor World) (t : Clock) (re : Patterns)
    (seconds_text : ℕ → String) where
  -- VoiceRuntime(OfflineRouter(), ActionBroker(…))
  abbrev pub offline : Partners (Broker World)
  offline = record {
    route = route re;
    submit = submit x t;
    hermes_fallback = none;
    seconds_text = seconds_text;
  }

  handle_routed-world :
      (now : ℕ) (transcript : String) (request : Option ActionRequest)
      (v : VoiceRuntime (Broker World))
      → ((handle_routed offline now transcript request v).1.world ≡ v.world)
        ⊎ ((r : ActionRequest) × (request ≡ some r)
            × ((handle_routed offline now transcript request v).1.world ≡ (submit x t r v.world).1))
  unfolding handle_routed
  handle_routed-world now transcript none v = inl (ground arith)
  handle_routed-world now transcript (some r) v = elim split [
    | inl same ↦ inl same
    | inr ran ↦ inr (r, refl, ran)
  ]
    where
      split :
          ((handle_routed offline now transcript (some r) v).1.world ≡ v.world)
          ⊎ ((handle_routed offline now transcript (some r) v).1.world ≡ (submit x t r v.world).1)
      split = ground (arith, called-world (clear_correction v) (submit x t r v.world))

  -- What the broker makes of a request of the router: nothing, or a harmless action is executed.
  submitted :
      (transcript : String) (r : ActionRequest) (b : Broker World)
      → route re transcript ≡ ok (some r)
      → ((submit x t r b).1.world ≡ b.world)
        ⊎ ((p : ActionPolicy) × (policy_of r.action ≡ some p)
            × IsHarmless p local_voice
            × ((submit x t r b).1.world ≡ (x.execute r p b.world).1))
  submitted transcript r b routed = elim (submit-Effect x t r b) [
    | inl same ↦ inl same
    | inr (p, reason, ran) ↦ inr (p, listed p reason, harmless p reason, ran)
  ]
    where
      no_token : token_text r.capability_token ≡ none
      no_token = ap token_text (route-evaluate re transcript r routed).1

      listed : (p : ActionPolicy) → IsAuthorised t r b p → policy_of r.action ≡ some p
      listed p reason =
          (evaluate_sound r reason.decision reason.evaluated).listed ∙ ap some reason.by_policy

      harmless : (p : ActionPolicy) → IsAuthorised t r b p → IsHarmless p local_voice
      harmless p reason = elim reason.confirmed [
        | inl free ↦
            subst (λ p. IsHarmless p local_voice) reason.by_policy
              (subst (IsHarmless reason.decision.policy) (route-evaluate re transcript r routed).0
                ((evaluate_sound r reason.decision reason.evaluated).confirmation.0 free))
        | inr (token, payload, there, _, _) ↦ absurd (cc (no_token, there))
      ]

  -- Whatever is said to a runtime without Hermes and whatever the regular expressions match, a round
  -- leaves the executor's world as it was; or the router made a request of the text, its action is on
  -- the allowlist with an entry of low risk that is reversible and unprivileged, and the world is the
  -- one that one call of the executor with that entry made.
  pub spoken-IsHarmless :
      (now : ℕ) (transcript : String) (v : VoiceRuntime (Broker World))
      → ((handle_transcript offline now transcript v).1.world.world ≡ v.world.world)
        ⊎ ((r : ActionRequest) × (p : ActionPolicy) × (route re transcript ≡ ok (some r))
            × (policy_of r.action ≡ some p)
            × IsHarmless p local_voice
            × ((handle_transcript offline now transcript v).1.world.world
                ≡ (x.execute r p v.world.world).1))
  unfolding handle_transcript handle_answered
  spoken-IsHarmless now transcript v = answered (route re transcript) refl
    where
      heard : VoiceRuntime (Broker World)
      heard = record v { state = RuntimeState.processing }

      Came : Broker World → Type 0
      Came b =
          (b.world ≡ v.world.world)
          ⊎ ((r : ActionRequest) × (p : ActionPolicy) × (route re transcript ≡ ok (some r))
              × (policy_of r.action ≡ some p)
              × IsHarmless p local_voice
              × (b.world ≡ (x.execute r p v.world.world).1))

      ran :
          (r : ActionRequest) → route re transcript ≡ ok (some r) → Came ((submit x t r v.world).1)
      ran r e = elim (submitted transcript r v.world e) [
        | inl same ↦ inl same
        | inr (p, listed, harmless, done) ↦ inr (r, p, e, listed, harmless, done)
      ]

      answered :
          (o : Outcome (Option ActionRequest))
          → route re transcript ≡ o
          → Came ((handle_answered offline now transcript o heard).1.world)
      answered (raised e) h = inl refl
      answered (ok request) h = elim (handle_routed-world now transcript request heard) [
        | inl same ↦ inl (ap (λ b. b.world) same)
        | inr (r, is, made) ↦ subst Came (sym made) (ran r (h ∙ ap ok is))
      ]
