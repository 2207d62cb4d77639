-- ===== src/Confirmation/Confirmer.antt =====
-- `TrustedConfirmer` of src/clausis/confirmation.py.
use clausis.Prelude.{
  ℕ, ◌+◌, ◌*◌, String, Bool, true, false, List, Option, none, some, if◌then◌else◌, leb, ltb, lookup,
  without, put,
}
use clausis.Outcome.{Outcome, ok, raised, value_error}
use clausis.Stdlib.{Stdlib}
use clausis.Models.Request.{Origin, hermes, external_content, ActionRequest}
use clausis.Policy.Evaluate.{PolicyDecision, evaluate}
use clausis.Capabilities.{CapabilityAuthority, issue}
use clausis.Confirmation.Summary.{canonical_summary}
use clausis.Confirmation.Phrase.{same_phrase}
use clausis.Confirmation.Pin.{PinVerifier, verify_pin}

pub record PendingConfirmation : Type 0 where
  pub request : ActionRequest
  pub phrase : String
  pub expires_at : ℕ
  pub attempts : ℕ

-- The pending confirmations are keyed by their identifiers.
pub record TrustedConfirmer : Type 0 where
  pub authority : CapabilityAuthority
  pub pin : PinVerifier
  pub ttl_seconds : ℕ
  pub capability_ttl_seconds : ℕ
  pub pending : List (String × PendingConfirmation)

pub record ConfirmationResponse : Type 0 where
  pub phrase : String
  pub pin : String

-- What the environment supplies to one approval: the readings of the clock in `begin`, in `approve`
-- and in `issue`, the two random identifiers and the random phrase.
pub record Moment : Type 0 where
  pub begun : ℕ
  pub approved : ℕ
  pub issued : ℕ
  pub confirmation_id : String
  pub phrase : String
  pub jti : String

-- self._pending.pop(confirmation_id, None)
abbrev pub dropped : String → TrustedConfirmer → TrustedConfirmer
dropped id c = record c { pending = without id c.pending }

unfoldable pub begin : ActionRequest → Moment → TrustedConfirmer → TrustedConfirmer
begin r m c = record c {
  pending =
      put m.confirmation_id
        (record {
          request = r;
          phrase = m.phrase;
          expires_at = m.begun + c.ttl_seconds * 1000000;
          attempts = 0;
        })
        c.pending;
}

unfoldable pub deny : String → TrustedConfirmer → TrustedConfirmer
deny id c = dropped id c

module _ ⦃py : Stdlib⦄ where
  -- the end of `approve`, by the result of the PIN check
  abbrev pub after_pin :
      String
      → Moment
      → PendingConfirmation
      → TrustedConfirmer
      → Bool
      → Outcome String × TrustedConfirmer
  after_pin id m p c true =
      (issue c.authority m.jti m.issued p.request c.capability_ttl_seconds, dropped id c)
  after_pin id m p c false = (raised (value_error "PIN verification failed"), c)

  -- … by the result of the comparison of the phrases
  abbrev pub after_phrase :
      String
      → ConfirmationResponse
      → Moment
      → PendingConfirmation
      → TrustedConfirmer
      → Outcome Bool
      → Outcome String × TrustedConfirmer
  after_phrase id response m p c (raised e) = (raised e, c)
  after_phrase id response m p c (ok false) =
      (raised (value_error "challenge phrase did not match"), c)
  after_phrase id response m p c (ok true) = after_pin id m p c (verify_pin c.pin response.pin)

  -- … by whether the attempts are used up
  abbrev pub after_count :
      String
      → ConfirmationResponse
      → Moment
      → PendingConfirmation
      → TrustedConfirmer
      → Bool
      → Outcome String × TrustedConfirmer
  after_count id response m p c true =
      (raised (value_error "too many confirmation attempts"), dropped id c)
  after_count id response m p c false =
      after_phrase id response m p c (same_phrase response.phrase p.phrase)

  -- pending.attempts += 1, on the object that the dictionary holds
  abbrev pub counted : String → PendingConfirmation → TrustedConfirmer → TrustedConfirmer
  counted id p c = record c { pending = put id (record p { attempts = p.attempts + 1 }) c.pending }

  -- … by whether the confirmation has expired
  abbrev pub after_expiry :
      String
      → ConfirmationResponse
      → Moment
      → PendingConfirmation
      → TrustedConfirmer
      → Bool
      → Outcome String × TrustedConfirmer
  after_expiry id response m p c true = (raised (value_error "confirmation expired"), dropped id c)
  after_expiry id response m p c false =
      after_count id response m (record p { attempts = p.attempts + 1 }) (counted id p c)
        (ltb 3 (p.attempts + 1))

  abbrev pub found :
      String
      → ConfirmationResponse
      → Moment
      → TrustedConfirmer
      → Option PendingConfirmation
      → Outcome String × TrustedConfirmer
  found id response m c none = (raised (value_error "unknown confirmation"), c)
  found id response m c (some p) = after_expiry id response m p c (leb p.expires_at m.approved)

  -- TrustedConfirmer.approve: the capability, or the exception
  unfoldable pub approve :
      String → ConfirmationResponse → Moment → TrustedConfirmer → Outcome String × TrustedConfirmer
  approve id response m c = found id response m c (lookup id c.pending)

  -- `collect` of the trusted input gets the summary and the phrase.
  abbrev pub Collect : Type 0
  Collect = String → String → Outcome ConfirmationResponse

  -- request with the capability, or the denial that follows an exception
  abbrev pub concluded :
      ActionRequest
      → String
      → Outcome String × TrustedConfirmer
      → Outcome ActionRequest × TrustedConfirmer
  concluded r id (ok token, c) = (ok (record r { capability_token = some token }), c)
  concluded r id (raised e, c) = (raised e, deny id c)

  abbrev pub responded :
      ActionRequest
      → Moment
      → TrustedConfirmer
      → Outcome ConfirmationResponse
      → Outcome ActionRequest × TrustedConfirmer
  responded r m c (raised e) = (raised e, deny m.confirmation_id c)
  responded r m c (ok response) =
      concluded r m.confirmation_id (approve m.confirmation_id response m c)

  abbrev pub collected :
      Collect → ActionRequest → Moment → Outcome String → Outcome ConfirmationResponse
  collected collect r m (raised e) = raised e
  collected collect r m (ok summary) = collect summary m.phrase

  abbrev pub decided :
      Collect
      → ActionRequest
      → Moment
      → TrustedConfirmer
      → Outcome PolicyDecision
      → Outcome ActionRequest × TrustedConfirmer
  decided collect r m c (raised e) = (raised e, c)
  decided collect r m c (ok d) =
      if d.confirmation_required
      then responded r m (begin r m c) (collected collect r m (canonical_summary r m.phrase))
      else (raised (value_error "action does not require trusted confirmation"), c)

  -- TrustedConfirmer.approve_from_trusted_input
  unfoldable pub approve_from_trusted_input :
      Collect → ActionRequest → Moment → TrustedConfirmer → Outcome ActionRequest × TrustedConfirmer
  approve_from_trusted_input collect r m c = elim r.capability_token [
    | some _ ↦ (raised (value_error "caller-supplied capabilities are forbidden"), c)
    | none ↦ decided collect r m c (evaluate r)
  ]

-- canonicalize_untrusted_request
abbrev untrusted_origin : Origin → Origin
untrusted_origin external_content = external_content
untrusted_origin _ = hermes

unfoldable pub canonicalize_untrusted_request : ActionRequest → Outcome ActionRequest
canonicalize_untrusted_request r = elim r.capability_token [
  | some _ ↦ raised (value_error "caller-supplied capabilities are forbidden")
  | none ↦ ok (record r { origin = untrusted_origin r.origin; capability_token = none })
]
