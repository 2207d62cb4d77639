-- ===== src/Policy/Evaluate.antt =====
-- `PolicyDecision` and `evaluate` of src/clausis/policy.py.
pub mod Decisions
pub mod Allowlist
use clausis.Prelude.{
  String, Bool, true, false, ◌&&◌, ◌||◌, not, Option, none, some, if◌then◌else◌, leb, ltb, lookup,
}
use clausis.Outcome.{Outcome, ok, raised, value_error, reject_if, ◌>>=◌, ◌>>◌}
use clausis.Stdlib.{Stdlib}
use clausis.Models.Request.{Origin, hermes, external_content, medium, rank, ActionRequest}
use clausis.Policy.Rule.{ActionPolicy, validate}
use clausis.Policy.Table.{action_policies}

pub record PolicyDecision : Type 0 where
  pub allowed : Bool
  pub confirmation_required : Bool
  pub reason : String
  pub policy : ActionPolicy

-- ACTION_POLICIES.get(action)
unfoldable pub policy_of : String → Option ActionPolicy
unfolding lookup action_policies
policy_of action = lookup action action_policies

-- origin in {Origin.EXTERNAL_CONTENT, Origin.HERMES}
abbrev pub is_tainted : Origin → Bool
is_tainted external_content = true
is_tainted hermes = true
is_tainted _ = false

unfoldable pub needs_confirmation : ActionPolicy → Origin → Bool
needs_confirmation p o =
    leb (rank medium) (rank p.minimum_risk) || not p.reversible || p.privileged || is_tainted o

abbrev pub decide : ActionPolicy → ActionRequest → PolicyDecision
decide p r =
    let needed = needs_confirmation p r.origin in
    record {
      allowed = true;
      confirmation_required = needed;
      reason =
          if needed
          then "confirmation required by risk and provenance policy"
          else "safe local action";
      policy = p;
    }

module _ ⦃py : Stdlib⦄ where
  -- The part of `evaluate` after the entry of the action is found.
  unfoldable pub evaluate_by : ActionPolicy → ActionRequest → Outcome PolicyDecision
  evaluate_by p r = do
    validate p.validator r
    reject_if (ltb (rank r.risk) (rank p.minimum_risk)) "caller attempted to understate action risk"
    reject_if (r.reversible && not p.reversible)
        "caller incorrectly marked an irreversible action reversible"
    ok (decide p r)

  unfoldable pub evaluate : ActionRequest → Outcome PolicyDecision
  evaluate r = elim (policy_of r.action) [
    | none ↦ raised (value_error "action is not allowlisted")
    | some p ↦ evaluate_by p r
  ]
