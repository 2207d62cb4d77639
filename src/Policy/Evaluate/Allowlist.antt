-- ===== src/Policy/Evaluate/Allowlist.antt =====
-- What holds of every entry of the allowlist, and what follows for the requests that pass.
use clausis.Prelude.{
  ℕ, ◌≤◌, ◌<◌, ◌⊎◌, String, ◌≡◌, refl, Bool, true, false, ◌&&◌, ◌||◌, not, List, [], ◌∷◌, none,
  some, arith, leb, lookup, and_true, is_empty,
}
use clausis.Outcome.{ok}
use clausis.Stdlib.{Stdlib}
use clausis.Models.Request.{rank, ActionRequest}
use clausis.Policy.Rule.{ActionPolicy}
use clausis.Policy.Table.{action_policies}
use clausis.Policy.Evaluate.{PolicyDecision, policy_of, evaluate}
use clausis.Policy.Evaluate.Decisions.{evaluate_sound}

abbrev every_entry : (ActionPolicy → Bool) → List (String × ActionPolicy) → Bool
every_entry q [] = true
every_entry q ((k, p) ∷ l) = q p && every_entry q l

lookup_every :
    (q : ActionPolicy → Bool) (k : String) (l : List (String × ActionPolicy)) (p : ActionPolicy)
    → every_entry q l ≡ true
    → lookup k l ≡ some p
    → q p ≡ true
unfolding lookup
lookup_every q k [] p e h = cc
lookup_every q k ((j, p') ∷ l) p e h =
    ground (arith, lookup_every q k l p, and_true (q p') (every_entry q l))

-- An irreversible or privileged entry has at least medium risk, a privileged one high risk, and a
-- command is never the empty vector.
abbrev is_careful : ActionPolicy → Bool
is_careful p =
    (p.reversible || leb 1 (rank p.minimum_risk))
    && (not p.privileged || leb 2 (rank p.minimum_risk))
    && elim p.command [ none ↦ true | some c ↦ not (is_empty c) ]

table_is_careful : every_entry is_careful action_policies ≡ true
unfolding action_policies
table_is_careful = refl

policy_of-is_careful :
    (action : String) (p : ActionPolicy) → policy_of action ≡ some p → is_careful p ≡ true
unfolding policy_of
policy_of-is_careful action p = lookup_every is_careful action action_policies p table_is_careful

careful_bounds :
    (p : ActionPolicy) (k : ℕ)
    → is_careful p ≡ true
    → rank p.minimum_risk ≤ k
    → ((0 < k) ⊎ ((p.reversible ≡ true) × (p.privileged ≡ false)))
      × ((1 < k) ⊎ (p.privileged ≡ false))
careful_bounds p k c h = ground arith

module _ ⦃py : Stdlib⦄ where
  -- A request that is let through states more than low risk, or names a reversible, unprivileged
  -- action; and it states more than medium risk, or names an unprivileged action.
  pub stated_risk_bounds :
      (r : ActionRequest) (d : PolicyDecision)
      → evaluate r ≡ ok d
      → ((0 < rank r.risk) ⊎ ((d.policy.reversible ≡ true) × (d.policy.privileged ≡ false)))
        × ((1 < rank r.risk) ⊎ (d.policy.privileged ≡ false))
  stated_risk_bounds r d h =
      let a = evaluate_sound r d h in
      careful_bounds d.policy (rank r.risk) (policy_of-is_careful r.action d.policy a.listed)
        a.risk_stated
