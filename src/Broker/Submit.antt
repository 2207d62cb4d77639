-- ===== src/Broker/Submit.antt =====
-- `ActionBroker` of src/clausis/broker.py.
use clausis.Prelude.{
  ℕ, String, Bool, true, false, [], Option, none, some, if◌then◌else◌, leb, str_eq,
}
use clausis.Outcome.{
  Exception, value_error, capability_error, os_error, subprocess_error, Outcome, ok, raised,
}
use clausis.Stdlib.{Stdlib}
use clausis.Models.Value.{Dict}
use clausis.Models.Request.{ActionRequest, ActionResult, parse_timestamp}
use clausis.Policy.Rule.{ActionPolicy}
use clausis.Policy.Evaluate.{PolicyDecision, evaluate}
use clausis.Capabilities.{CapabilityAuthority, verify}
use clausis.Audit.File.{AuditLog, append}
use clausis.Broker.Executor.{Executor}

-- The readings of the clock in one submission, in order.
pub record Clock : Type 0 where
  pub at_entry : ℕ
  pub at_verify : ℕ
  pub at_record : ℕ

-- The broker's state: its authority, its audit log, if it has one, and the executor's world.
pub record Broker (World : Type 0) : Type 0 where
  pub authority : CapabilityAuthority
  pub audit : Option AuditLog
  pub world : World

-- `except ValueError`, which takes a CapabilityError too: str(exc)
abbrev pub value_error_text : Exception → Option String
value_error_text (value_error m) = some m
value_error_text (capability_error m) = some m
value_error_text _ = none

-- `except CapabilityError`
abbrev pub capability_error_text : Exception → Option String
capability_error_text (capability_error m) = some m
capability_error_text _ = none

-- `except (OSError, ValueError, subprocess.SubprocessError)`
abbrev pub executor_error_text : Exception → Option String
executor_error_text (value_error m) = some m
executor_error_text (capability_error m) = some m
executor_error_text (os_error m) = some m
executor_error_text (subprocess_error m) = some m
executor_error_text _ = none

-- ActionResult(status, message, request.action)
abbrev pub plain_result : String → String → ActionRequest → ActionResult
plain_result status message r = record {
  status = status;
  message = message;
  action = r.action;
  confirmation_id = none;
  details = [];
}

-- `not request.capability_token`
abbrev pub token_text : Option String → Option String
token_text none = none
token_text (some t) = if str_eq t "" then none else some t

module _ ⦃py : Stdlib⦄ where
  -- ActionBroker._record
  unfoldable pub record_result :
      ℕ → ActionRequest → ActionResult → Option AuditLog → Option AuditLog
  record_result now r result none = none
  record_result now r result (some log) = some (append now r result log)

  -- request.expires_at is not None and parse_timestamp(request.expires_at) <= utc_now()
  abbrev pub is_expired : Option String → ℕ → Outcome Bool
  is_expired none now = ok false
  is_expired (some e) now = elim (parse_timestamp e) [
    | ok at ↦ ok (leb at now)
    | raised x ↦ raised x
  ]

module _ ⦃py : Stdlib⦄ {World : Type 0} where
  -- records the result and returns it
  abbrev pub answer :
      ℕ → ActionRequest → ActionResult → Broker World → Outcome ActionResult × Broker World
  answer now r result b = (ok result, record b { audit = record_result now r result b.audit })

  -- a handled exception is recorded as a result with the status, any other one is passed on
  abbrev pub answer_error :
      ℕ
      → ActionRequest
      → String
      → Exception
      → Option String
      → Broker World
      → Outcome ActionResult × Broker World
  answer_error now r status e none b = (raised e, b)
  answer_error now r status e (some m) b = answer now r (plain_result status m r) b

  abbrev pub finish :
      ℕ
      → ActionRequest
      → Broker World
      → Outcome ActionResult × World
      → Outcome ActionResult × Broker World
  finish now r b (ok result, w) = answer now r result (record b { world = w })
  finish now r b (raised e, w) =
      answer_error now r "failed" e (executor_error_text e) (record b { world = w })

  -- the part of `submit` that calls the executor
  unfoldable pub run :
      Executor World
      → ℕ
      → ActionRequest
      → ActionPolicy
      → Broker World
      → Outcome ActionResult × Broker World
  run x now r p b = finish now r b (x.execute r p b.world)

  abbrev pub after_verify :
      Executor World
      → Clock
      → ActionRequest
      → ActionPolicy
      → Broker World
      → Outcome Dict × CapabilityAuthority
      → Outcome ActionResult × Broker World
  after_verify x t r p b (ok payload, a) = run x t.at_record r p (record b { authority = a })
  after_verify x t r p b (raised e, a) =
      answer_error t.at_record r "denied" e (capability_error_text e) (record b { authority = a })

  -- `if not request.capability_token` and the verification of a token
  abbrev pub with_token :
      Executor World
      → Clock
      → ActionRequest
      → PolicyDecision
      → Broker World
      → Option String
      → Outcome ActionResult × Broker World
  with_token x t r d b none =
      answer t.at_record r (plain_result "confirmation_required" d.reason r) b
  with_token x t r d b (some token) =
      after_verify x t r d.policy b (verify b.authority t.at_verify token r true)

  -- the part of `submit` after a decision
  unfoldable pub decided :
      Executor World
      → Clock
      → ActionRequest
      → PolicyDecision
      → Broker World
      → Outcome ActionResult × Broker World
  decided x t r d b =
      if d.confirmation_required
      then with_token x t r d b (token_text r.capability_token)
      else run x t.at_record r d.policy b

  abbrev pub evaluated :
      Executor World
      → Clock
      → ActionRequest
      → Outcome PolicyDecision
      → Broker World
      → Outcome ActionResult × Broker World
  evaluated x t r (ok d) b = decided x t r d b
  evaluated x t r (raised e) b = answer_error t.at_record r "denied" e (value_error_text e) b

  abbrev pub unless_expired :
      Executor World
      → Clock
      → ActionRequest
      → Broker World
      → Outcome Bool
      → Outcome ActionResult × Broker World
  unless_expired x t r b (raised e) = (raised e, b)
  unless_expired x t r b (ok true) =
      answer t.at_record r (plain_result "denied" "request expired" r) b
  unless_expired x t r b (ok false) = evaluated x t r (evaluate r) b

  -- ActionBroker.submit
  unfoldable pub submit :
      Executor World → Clock → ActionRequest → Broker World → Outcome ActionResult × Broker World
  submit x t r b = unless_expired x t r b (is_expired r.expires_at t.at_entry)
