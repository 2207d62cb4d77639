-- ===== src/Broker/Authorisation.antt =====
-- What `submit` of src/clausis/broker.py does to the world, and what it needs to do it.
use clausis.Prelude.{
  ℕ, String, ◌≡◌, ◌⊎◌, inl, inr, refl, Bool, true, false, Option, none, some, if◌then◌else◌,
}
use clausis.Outcome.{Exception, Outcome, ok, raised}
use clausis.Stdlib.{Stdlib}
use clausis.Models.Value.{Dict}
use clausis.Models.Request.{ActionRequest, ActionResult}
use clausis.Policy.Rule.{ActionPolicy}
use clausis.Policy.Evaluate.{PolicyDecision, evaluate}
use clausis.Capabilities.{CapabilityAuthority, verify}
use clausis.Capabilities.Binding.{IsSigned, IsBound, verify_binds}
use clausis.Broker.Executor.{Executor}
use clausis.Broker.Submit.{
  Clock, Broker, answer_error, finish, run, after_verify, decided, is_expired, evaluated, submit,
  with_token, unless_expired, token_text, capability_error_text, value_error_text,
  executor_error_text,
}

module _ ⦃py : Stdlib⦄ {World : Type 0} where
  -- Why a request may run: it has not expired, the policy lets it through, and either the policy asks
  -- for no confirmation or the request carries a token that the authority accepts for it.
  pub record IsAuthorised (t : Clock) (r : ActionRequest) (b : Broker World) (p : ActionPolicy)
      : Type 0 where
    pub current : is_expired r.expires_at t.at_entry ≡ ok false
    pub decision : PolicyDecision
    pub evaluated : evaluate r ≡ ok decision
    pub by_policy : decision.policy ≡ p
    pub confirmed :
        (decision.confirmation_required ≡ false)
        ⊎ ((token : String) × (payload : Dict) × (token_text r.capability_token ≡ some token)
            × IsSigned b.authority token payload
            × IsBound b.authority.consumed t.at_verify payload r)

  answer_error-world :
      (now : ℕ) (r : ActionRequest) (s : String) (e : Exception) (m : Option String)
      (b : Broker World)
      → (answer_error now r s e m b).1.world ≡ b.world
  answer_error-world now r s e none b = refl
  answer_error-world now r s e (some m) b = refl

  pub run-world :
      (x : Executor World) (now : ℕ) (r : ActionRequest) (p : ActionPolicy) (b : Broker World)
      → (run x now r p b).1.world ≡ (x.execute r p b.world).1
  unfolding run
  run-world x now r p b = finished (x.execute r p b.world)
    where
      finished : (o : Outcome ActionResult × World) → (finish now r b o).1.world ≡ o.1
      finished (ok result, w) = refl
      finished (raised e, w) =
          answer_error-world now r "failed" e (executor_error_text e) (record b { world = w })

  -- Either the world is as it was, or the executor ran for the request and its policy with a reason
  -- `P`, and the world is the one that it left.
  abbrev pub Effect :
      Executor World
      → ActionRequest
      → Broker World
      → (ActionPolicy → Type 0)
      → Broker World
      → Type 0
  Effect x r b P after =
      (after.world ≡ b.world)
      ⊎ ((p : ActionPolicy) × P p × (after.world ≡ (x.execute r p b.world).1))

  module _ (x : Executor World) (t : Clock) (r : ActionRequest) (b : Broker World) where
    abbrev Confirmed : PolicyDecision → Type 0
    Confirmed d =
        (d.confirmation_required ≡ false)
        ⊎ ((token : String) × (payload : Dict) × (token_text r.capability_token ≡ some token)
            × IsSigned b.authority token payload
            × IsBound b.authority.consumed t.at_verify payload r)

    verified-Effect :
        (d : PolicyDecision) (token : String)
        → token_text r.capability_token ≡ some token
        → (v : Outcome Dict × CapabilityAuthority) → verify b.authority t.at_verify token r true ≡ v
        → Effect x r b (λ p. (d.policy ≡ p) × Confirmed d) (after_verify x t r d.policy b v).1
    verified-Effect d token there (ok payload, a) e =
        let (signed, bound, _) = verify_binds b.authority a t.at_verify token r payload e in
        inr (
          d.policy,
          (refl, inr (token, payload, there, signed, bound)),
          run-world x t.at_record r d.policy (record b { authority = a }),
        )
    verified-Effect d token there (raised e, a) h = inl (
        answer_error-world t.at_record r "denied" e (capability_error_text e)
          (record b { authority = a }))

    decided-Effect :
        (d : PolicyDecision)
        → Effect x r b (λ p. (d.policy ≡ p) × Confirmed d) (decided x t r d b).1
    unfolding decided
    decided-Effect d = by_flag d.confirmation_required refl
      where
        Reason : ActionPolicy → Type 0
        Reason p = (d.policy ≡ p) × Confirmed d

        by_token :
            (o : Option String)
            → token_text r.capability_token ≡ o
            → Effect x r b Reason (with_token x t r d b o).1
        by_token none e = inl refl
        by_token (some token) e =
            verified-Effect d token e (verify b.authority t.at_verify token r true) refl

        by_flag :
            (c : Bool)
            → d.confirmation_required ≡ c
            → Effect x r b Reason
                (if c
                  then with_token x t r d b (token_text r.capability_token)
                  else run x t.at_record r d.policy b).1
        by_flag true e = by_token (token_text r.capability_token) refl
        by_flag false e = inr (d.policy, (refl, inl e), run-world x t.at_record r d.policy b)

    evaluated-Effect :
        is_expired r.expires_at t.at_entry ≡ ok false
        → (o : Outcome PolicyDecision) → evaluate r ≡ o
        → Effect x r b (IsAuthorised t r b) (evaluated x t r o b).1
    evaluated-Effect current (raised e) h =
        inl (answer_error-world t.at_record r "denied" e (value_error_text e) b)
    evaluated-Effect current (ok d) h = elim (decided-Effect d) [
      | inl same ↦ inl same
      | inr (p, (by_policy, confirmed), after) ↦ inr (
        p,
        record {
          current = current;
          decision = d;
          evaluated = h;
          by_policy = by_policy;
          confirmed = confirmed;
        },
        after,
      )
    ]

    -- A submission leaves the executor's world as it was, or the request had not expired, the policy
    -- let it through, it needed no confirmation or carried a token that was signed by the broker's
    -- authority, bound to this request, in time and unused, and the world is the one that one call of
    -- the executor with the policy's entry made.
    pub submit-Effect : Effect x r b (IsAuthorised t r b) (submit x t r b).1
    unfolding submit
    submit-Effect = by_expiry (is_expired r.expires_at t.at_entry) refl
      where
        by_expiry :
            (o : Outcome Bool)
            → is_expired r.expires_at t.at_entry ≡ o
            → Effect x r b (IsAuthorised t r b) (unless_expired x t r b o).1
        by_expiry (raised e) h = inl refl
        by_expiry (ok true) h = inl refl
        by_expiry (ok false) h = evaluated-Effect h (evaluate r) refl
