-- ===== src/Audit/Privacy.antt =====
-- What the audit log does not depend on.
use clausis.Prelude.{
  ℕ, String, ◌≡◌, refl, Bool, true, ◌&&◌, ◌||◌, [], ◌∷◌, Option, arith, ap, leb, ◌==◌, all,
  and_true, List, some, lookup, lookup-all,
}
use clausis.Stdlib.{Stdlib, Text}
use clausis.Text.{codes, casefold, text_eq}
use clausis.Models.Value.{Dict, to_fields, Fields}
use clausis.Models.Request.{ActionRequest, ActionResult, to_dict}
use clausis.Policy.Rule.{ActionPolicy, spoken_text}
use clausis.Policy.Table.{action_policies}
use clausis.Policy.Evaluate.{policy_of}
use clausis.Audit.Redaction.{
  sensitive_key, redact, redact_fields, hides_target, hides_result, logged_request, logged_result,
}
use clausis.Audit.File.{AuditLog, entry_of, append}

abbrev pub is_key_mark : ℕ → Bool
is_key_mark c = leb b'a' c && leb c b'z' || c == b'_'

logged_request-target :
    (r : ActionRequest) (t : String)
    → hides_target r.action ≡ true
    → logged_request (record r { target = t }) ≡ logged_request r
unfolding logged_request hides_target
logged_request-target r t h = ground arith

logged_result-eq :
    (action : String) (a b : ActionResult)
    → hides_result action ≡ true
    → a.status ≡ b.status
    → a.action ≡ b.action
    → a.confirmation_id ≡ b.confirmation_id
    → logged_result action a ≡ logged_result action b
unfolding logged_result hides_result
logged_result-eq action a b h s n c = ground arith

-- an entry for spoken text is one whose target is hidden
abbrev hides_spoken : String × ActionPolicy → Bool
hides_spoken (action, p) = elim p.validator [ some spoken_text ↦ hides_target action | _ ↦ true ]

table_hides : all hides_spoken action_policies ≡ true
unfolding action_policies hides_target
table_hides = refl

hides_spoken-target :
    (action : String) (p : ActionPolicy)
    → hides_spoken (action, p) ≡ true
    → p.validator ≡ some spoken_text
    → hides_target action ≡ true
hides_spoken-target action p h spoken = rw spoken at h

lookup-hides :
    (action : String) (l : List (String × ActionPolicy)) (p : ActionPolicy)
    → all hides_spoken l ≡ true
    → lookup action l ≡ some p
    → p.validator ≡ some spoken_text
    → hides_target action ≡ true
lookup-hides action l p e h spoken =
    hides_spoken-target action p (lookup-all hides_spoken action l p e h) spoken

module _ ⦃py : Stdlib⦄ where
  -- str.casefold leaves lower-case ASCII letters and the underscore as they are.
  abbrev pub FoldsKeys : Type 0
  FoldsKeys = (c : ℕ) → is_key_mark c ≡ true → py.fold c ≡ c ∷ []

  casefold-plain : FoldsKeys → (s : Text) → all is_key_mark s ≡ true → casefold s ≡ s
  unfolding casefold
  casefold-plain f [] h = refl
  casefold-plain f (c ∷ s) h =
      let (mark, rest) = and_true (is_key_mark c) (all is_key_mark s) h in
      rw (f c mark) (ap (λ (t : Text). c ∷ t) (casefold-plain f s rest))

  sensitive_key-token : FoldsKeys → sensitive_key "capability_token" ≡ true
  unfolding sensitive_key text_eq
  sensitive_key-token f = rw (casefold-plain f (codes "capability_token") refl) refl

  redact-token :
      (r : ActionRequest) (token : Option String)
      → sensitive_key "capability_token" ≡ true
      → redact_fields (to_fields (to_dict (record r { capability_token = token })))
        ≡ redact_fields (to_fields (to_dict r))
  unfolding redact to_dict
  redact-token r token s = rw s refl

  logged_request-token :
      (r : ActionRequest) (token : Option String)
      → logged_request (record r { capability_token = token })
        ≡ record (logged_request r) { capability_token = token }
  unfolding logged_request
  logged_request-token r token = ground arith

  -- the redacted dictionary of the logged request
  abbrev shown : ActionRequest → Fields
  shown r = redact_fields (to_fields (to_dict (logged_request r)))

  shown-token :
      (r : ActionRequest) (token : Option String)
      → FoldsKeys
      → shown (record r { capability_token = token }) ≡ shown r
  shown-token r token f =
      rw (logged_request-token r token)
        (redact-token (logged_request r) token (sensitive_key-token f))

  -- Two requests that differ only in their capability token leave the same line in the log and the
  -- same chain.
  pub append_hides_token :
      (now : ℕ) (r : ActionRequest) (token : Option String) (result : ActionResult) (log : AuditLog)
      → FoldsKeys
      → append now (record r { capability_token = token }) result log ≡ append now r result log
  unfolding append entry_of
  append_hides_token now r token result log f = rw (shown-token r token f)

  -- For every action of the allowlist whose target is checked as spoken text the log does not depend
  -- on the target: two requests with different texts leave the same log.
  pub append-hides_target :
      (now : ℕ) (r : ActionRequest) (target : String) (result : ActionResult) (log : AuditLog)
      (p : ActionPolicy)
      → policy_of r.action ≡ some p
      → p.validator ≡ some spoken_text
      → append now (record r { target = target }) result log ≡ append now r result log
  unfolding append entry_of policy_of
  append-hides_target now r target result log p listed spoken = rw (
      logged_request-target r target
        (lookup-hides r.action action_policies p table_hides listed spoken))

  -- For the ten actions that read text out the log does not depend on the result's message and
  -- details.
  pub append-hides_result :
      (now : ℕ) (r : ActionRequest) (result : ActionResult) (message : String) (details : Dict)
      (log : AuditLog)
      → hides_result r.action ≡ true
      → append now r (record result { message = message; details = details }) log
        ≡ append now r result log
  unfolding append entry_of
  append-hides_result now r result message details log h = rw (
      logged_result-eq r.action (record result { message = message; details = details }) result h
        refl refl refl)
