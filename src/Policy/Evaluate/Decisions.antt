-- ===== src/Policy/Evaluate/Decisions.antt =====
-- What a decision of `evaluate` means.
use clausis.Prelude.{
  ◌≤◌, ◌≡◌, ◌≢◌, ◌↔◌, refl, sym, ap, ◌∙◌, inl, inr, true, false, some, arith, Option-cases,
}
use clausis.Outcome.{ok, >>=-eq-ok}
use clausis.Stdlib.{Stdlib}
use clausis.Models.Request.{Origin, hermes, external_content, low, rank, ActionRequest}
use clausis.Policy.Rule.{ActionPolicy, validate}
use clausis.Policy.Evaluate.{
  PolicyDecision, policy_of, needs_confirmation, evaluate_by, evaluate, decide,
}

-- What may run unasked: an entry of low risk that can be undone and needs no privilege, asked for by
-- neither Hermes nor external content.
pub record IsHarmless (p : ActionPolicy) (o : Origin) : Type 0 where
  pub low_risk : p.minimum_risk ≡ low
  pub reversible : p.reversible ≡ true
  pub unprivileged : p.privileged ≡ false
  pub not_hermes : o ≢ hermes
  pub not_external : o ≢ external_content

-- What an allowed request has passed, and exactly when it may run without a confirmation.
pub record IsAllowed ⦃py : Stdlib⦄ (r : ActionRequest) (d : PolicyDecision) : Type 0 where
  pub allowed : d.allowed ≡ true
  pub listed : policy_of r.action ≡ some d.policy
  pub validated : validate d.policy.validator r ≡ ok tt
  pub risk_stated : rank d.policy.minimum_risk ≤ rank r.risk
  pub reversibility_stated : r.reversible ≡ true → d.policy.reversible ≡ true
  pub confirmation : (d.confirmation_required ≡ false) ↔ IsHarmless d.policy r.origin

-- No confirmation is needed exactly for what is harmless.
pub needs_confirmation_iff :
    (p : ActionPolicy) (o : Origin) → (needs_confirmation p o ≡ false) ↔ IsHarmless p o
unfolding needs_confirmation
needs_confirmation_iff p o = (
  λ h. record {
    low_risk = ground arith;
    reversible = ground arith;
    unprivileged = ground arith;
    not_hermes = λ e. ground arith;
    not_external = λ e. ground arith;
  },
  λ h. by_origin o h,
)
  where
    by_origin : (o : Origin) → IsHarmless p o → needs_confirmation p o ≡ false
    by_origin hermes h = absurd (h.not_hermes refl)
    by_origin external_content h = absurd (h.not_external refl)
    by_origin _ h = ground (arith, h.low_risk, h.reversible, h.unprivileged)

module _ ⦃py : Stdlib⦄ where
  -- shape of a successful evaluation by one entry
  evaluate_by_lem :
      (p : ActionPolicy) (r : ActionRequest) (d : PolicyDecision)
      → evaluate_by p r ≡ ok d
      → (d.policy ≡ p)
        × (d.allowed ≡ true)
        × (validate p.validator r ≡ ok tt)
        × (rank p.minimum_risk ≤ rank r.risk)
        × (r.reversible ≡ true → p.reversible ≡ true)
        × (d.confirmation_required ≡ needs_confirmation p r.origin)
  unfolding evaluate_by
  evaluate_by_lem p r d h =
      let (u, passed, rest) = >>=-eq-ok (validate p.validator r) _ h in
      (ground arith, ground arith, passed, ground arith, λ e. ground arith, ground arith)

  IsAllowed-by :
      (p : ActionPolicy) (r : ActionRequest) (d : PolicyDecision)
      → policy_of r.action ≡ some p
      → d.policy ≡ p
      → d.allowed ≡ true
      → validate p.validator r ≡ ok tt
      → rank p.minimum_risk ≤ rank r.risk
      → (r.reversible ≡ true → p.reversible ≡ true)
      → d.confirmation_required ≡ needs_confirmation p r.origin
      → IsAllowed r d
  IsAllowed-by p r d l e a v k s c = record {
    allowed = a;
    listed = l ∙ ap some (sym e);
    validated = rw e v;
    risk_stated = rw e k;
    reversibility_stated = rw e s;
    confirmation = rw (e, c) (needs_confirmation_iff p r.origin);
  }

  -- A request that `evaluate` lets through is on the allowlist, its validator has accepted it, it
  -- states at least the risk of its entry, it is marked reversible only if the entry is, and the
  -- decision does without a confirmation exactly if the entry is of low risk, reversible and
  -- unprivileged and neither Hermes nor external content asks.
  pub evaluate_sound : (r : ActionRequest) (d : PolicyDecision) → evaluate r ≡ ok d → IsAllowed r d
  unfolding evaluate
  evaluate_sound r d h = elim (Option-cases (policy_of r.action)) [
    | inl none_there ↦ cc
    | inr (p, there) ↦
        let (e, a, v, k, s, c) = evaluate_by_lem p r d (rw (there, evaluate) at h) in
        IsAllowed-by p r d there e a v k s c
  ]

  -- Whatever meets the four conditions is let through: the decision is the one that `decide` makes
  -- of the entry.
  pub evaluate_complete :
      (r : ActionRequest) (p : ActionPolicy)
      → policy_of r.action ≡ some p
      → validate p.validator r ≡ ok tt
      → rank p.minimum_risk ≤ rank r.risk
      → (r.reversible ≡ true → p.reversible ≡ true)
      → evaluate r ≡ ok (decide p r)
  unfolding evaluate evaluate_by
  evaluate_complete r p l v k s = rw (l, evaluate) (rw (v, evaluate_by) (ground arith))
