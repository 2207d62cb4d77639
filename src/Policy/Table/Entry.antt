-- ===== src/Policy/Table/Entry.antt =====
-- The constructor call `ActionPolicy(minimum_risk, reversible, command, validator, privileged)`.
use clausis.Prelude.{String, Bool, List, Option}
use clausis.Models.Request.{Risk}
use clausis.Policy.Rule.{Validator, ActionPolicy}

abbrev pub listed : Risk → Bool → Option (List String) → Option Validator → Bool → ActionPolicy
listed minimum_risk reversible command validator privileged = record {
  minimum_risk = minimum_risk;
  reversible = reversible;
  command = command;
  validator = validator;
  privileged = privileged;
}
