-- ===== src/Broker/Journal.antt =====
-- What `submit` of src/clausis/broker.py leaves in the audit log.
use clausis.Prelude.{
  ◌≤◌, String, ◌≡◌, refl, ap, ◌∙◌, Bool, true, false, Option, none, some, leb, lookup, [], ◌∷◌,
  if◌then◌else◌, le→leb,
}
use clausis.Prelude.Int.{ℤ, abs}
use clausis.Outcome.{Exception, overflow_error, Outcome, ok, raised}
use clausis.Stdlib.{Stdlib}
use clausis.Models.Value.{Dict, int, float_overflow}
use clausis.Models.Request.{medium, ActionRequest, ActionResult}
use clausis.Policy.Rule.{Validator, ActionPolicy}
use clausis.Policy.Validators.Targets.{accessible_name}
use clausis.Policy.Validators.Parameters.{spin_value}
use clausis.Policy.Evaluate.{PolicyDecision, evaluate, evaluate_by, policy_of}
use clausis.Capabilities.{CapabilityAuthority, verify}
use clausis.Broker.Executor.{Executor}
use clausis.Broker.Submit.{
  Clock, Broker, answer_error, finish, run, after_verify, decided, is_expired, evaluated, submit,
  with_token, unless_expired, token_text, capability_error_text, value_error_text,
  executor_error_text, record_result,
}

abbrev spin_policy : ActionPolicy
spin_policy = record {
  minimum_risk = medium;
  reversible = true;
  command = none;
  validator = some Validator.spin_value;
  privileged = false;
}

policy_of-spin : policy_of "desktop.spin_button.set_value" ≡ some spin_policy
unfolding policy_of
policy_of-spin = refl

module _ ⦃py : Stdlib⦄ where
  spin_value-overflow :
      (r : ActionRequest) (n : ℤ)
      → r.arguments ≡ ("value", int n) ∷ []
      → accessible_name r ≡ ok tt
      → leb float_overflow (abs n) ≡ true
      → spin_value r ≡ raised overflow_error
  unfolding spin_value lookup
  spin_value-overflow r n a named large = rw (named, a, large)

  evaluate-overflow :
      (r : ActionRequest)
      → r.action ≡ "desktop.spin_button.set_value"
      → spin_value r ≡ raised overflow_error
      → evaluate r ≡ raised overflow_error
  unfolding evaluate evaluate_by
  evaluate-overflow r action raises =
      rw (ap policy_of action ∙ policy_of-spin, evaluate, raises, evaluate_by)

module _ ⦃py : Stdlib⦄ {World : Type 0} where
  -- A result that is returned was recorded, once; an exception that is passed on left no record.
  abbrev pub Recorded :
      Clock → ActionRequest → Broker World → Outcome ActionResult × Broker World → Type 0
  Recorded t r b (ok result, after) = after.audit ≡ record_result t.at_record r result b.audit
  Recorded t r b (raised e, after) = after.audit ≡ b.audit

  module _ (x : Executor World) (t : Clock) (r : ActionRequest) where
    answer_error-Recorded :
        (s : String) (e : Exception) (m : Option String) (b : Broker World)
        → Recorded t r b (answer_error t.at_record r s e m b)
    answer_error-Recorded s e none b = refl
    answer_error-Recorded s e (some m) b = refl

    run-Recorded : (p : ActionPolicy) (b : Broker World) → Recorded t r b (run x t.at_record r p b)
    unfolding run
    run-Recorded p b = finished (x.execute r p b.world)
      where
        finished : (o : Outcome ActionResult × World) → Recorded t r b (finish t.at_record r b o)
        finished (ok result, w) = refl
        finished (raised e, w) =
            answer_error-Recorded "failed" e (executor_error_text e) (record b { world = w })

    after_verify-Recorded :
        (p : ActionPolicy) (b : Broker World) (v : Outcome Dict × CapabilityAuthority)
        → Recorded t r b (after_verify x t r p b v)
    after_verify-Recorded p b (ok payload, a) = run-Recorded p (record b { authority = a })
    after_verify-Recorded p b (raised e, a) =
        answer_error-Recorded "denied" e (capability_error_text e) (record b { authority = a })

    -- Every submission that returns a result has appended exactly one entry with the request and that
    -- result to the audit log, on every branch; one that lets an exception through has appended none.
    pub submit-Recorded : (b : Broker World) → Recorded t r b (submit x t r b)
    unfolding submit decided
    submit-Recorded b = by_expiry (is_expired r.expires_at t.at_entry)
      where
        by_token :
            (d : PolicyDecision) (o : Option String) → Recorded t r b (with_token x t r d b o)
        by_token d none = refl
        by_token d (some token) =
            after_verify-Recorded d.policy b (verify b.authority t.at_verify token r true)

        by_flag :
            (d : PolicyDecision) (c : Bool)
            → Recorded t r b (
                if c
                then with_token x t r d b (token_text r.capability_token)
                else run x t.at_record r d.policy b)
        by_flag d true = by_token d (token_text r.capability_token)
        by_flag d false = run-Recorded d.policy b

        by_decision : (o : Outcome PolicyDecision) → Recorded t r b (evaluated x t r o b)
        by_decision (ok d) = by_flag d d.confirmation_required
        by_decision (raised e) = answer_error-Recorded "denied" e (value_error_text e) b

        by_expiry : (o : Outcome Bool) → Recorded t r b (unless_expired x t r b o)
        by_expiry (raised e) = refl
        by_expiry (ok true) = refl
        by_expiry (ok false) = by_decision (evaluate r)

    -- A spin-button request with a proper name and an integer that no double can hold makes `submit`
    -- raise `OverflowError`: the broker does not answer, and the request leaves no audit entry.
    pub spin_value_escapes :
        (b : Broker World) (n : ℤ)
        → r.action ≡ "desktop.spin_button.set_value"
        → r.arguments ≡ ("value", int n) ∷ []
        → accessible_name r ≡ ok tt
        → float_overflow ≤ abs n
        → is_expired r.expires_at t.at_entry ≡ ok false
        → submit x t r b ≡ (raised overflow_error, b)
    unfolding submit
    spin_value_escapes b n action arguments named large current =
        let raises =
          spin_value-overflow r n arguments named (le→leb float_overflow (abs n) large) in
        rw (submit, current, evaluate-overflow r action raises)
