-- ===== src/Journey.antt =====
-- The way of one request through the confirmer of src/clausis/confirmation.py to the broker of
-- src/clausis/broker.py.
use clausis.Prelude.{
  ℕ, ◌+◌, ◌*◌, ◌<◌, String, ◌≡◌, refl, sym, ap, ◌∙◌, Bool, true, false, not, ◌&&◌, ◌||◌, Option,
  none, some, eq_iff, eq_refl, str_eq, if◌then◌else◌, ltb, lt→ltb, elem,
}
use clausis.Outcome.{Outcome, ok, raised, value_error, is_ok}
use clausis.Stdlib.{Stdlib}
use clausis.Models.Value.{Dict}
use clausis.Models.Request.{ActionRequest, ActionResult, origin_value}
use clausis.Policy.Evaluate.{PolicyDecision, evaluate}
use clausis.Capabilities.{
  CapabilityAuthority, issue, verify, check, read_token, split_dot, payload_of, arguments_digest,
}
use clausis.Capabilities.RoundTrip.{IsFaithful, issue-verify_iff}
use clausis.Confirmation.Confirmer.{
  PendingConfirmation, TrustedConfirmer, ConfirmationResponse, Moment, Collect, approve, begin,
  concluded, responded, collected, decided, approve_from_trusted_input,
}
use clausis.Confirmation.Summary.{canonical_summary}
use clausis.Confirmation.Attempts.{lookup-put_self}
use clausis.Confirmation.Approval.{approve-IsApproved}
use clausis.Broker.Authorisation.{run-world}
use clausis.Broker.Executor.{Executor}
use clausis.Broker.Submit
use clausis.Broker.Submit.{
  Clock, Broker, submit, is_expired, token_text, with_token, after_verify, run,
}

abbrev Granted : Type 0
Granted = Outcome ActionRequest × TrustedConfirmer

abbrev request_of : (d : ActionRequest) (o : Outcome ActionRequest) → ActionRequest
request_of d (ok r) = r
request_of d (raised e) = d

abbrev pending_request : ActionRequest → Option PendingConfirmation → ActionRequest
pending_request r none = r
pending_request r (some p) = p.request

module _ ⦃py : Stdlib⦄ (r r' : ActionRequest) (m : Moment) (c' : TrustedConfirmer) where
  -- What a granted request consists of.
  record IsGranted (c : TrustedConfirmer) : Type 0 where
    pub token : String
    pub request : r' ≡ record r { capability_token = some token }
    pub issued : issue c.authority m.jti m.issued r c.capability_ttl_seconds ≡ ok token

  concluded-ok :
      (o : Outcome String × TrustedConfirmer)
      → concluded r m.confirmation_id o ≡ (ok r', c')
      → (token : String) × (o ≡ (ok token, c')) × (r' ≡ record r { capability_token = some token })
  concluded-ok (ok token, after) h = (
    token,
    ap (λ (x : TrustedConfirmer). (ok token, x)) (ap (λ (x : Granted). x.1) h),
    sym (ap (λ (x : Granted). request_of r x.0) h),
  )
  concluded-ok (raised e, after) h = absurd (cc (ap (λ (x : Granted). x.0) h))

  responded-ok :
      (c : TrustedConfirmer) (o : Outcome ConfirmationResponse)
      → responded r m (begin r m c) o ≡ (ok r', c')
      → IsGranted c
  unfolding begin
  responded-ok c (raised e) h = absurd (cc (ap (λ (x : Granted). x.0) h))
  responded-ok c (ok response) h =
      let (token, given, same) =
        concluded-ok (approve m.confirmation_id response m (begin r m c)) h in
      let a = approve-IsApproved m.confirmation_id token response m c' (begin r m c) given in
      let entry : PendingConfirmation = record {
        request = r;
        phrase = m.phrase;
        expires_at = m.begun + c.ttl_seconds * 1000000;
        attempts = 0;
      } in
      let asked : r ≡ a.entry.request =
        ap (pending_request r)
          (sym (lookup-put_self m.confirmation_id entry c.pending) ∙ a.was_pending) in
      record { token = token; request = same; issued = rw asked a.issued }

  decided-ok :
      (collect : Collect) (c : TrustedConfirmer) (o : Outcome PolicyDecision)
      → decided collect r m c o ≡ (ok r', c')
      → IsGranted c
  decided-ok collect c (raised e) h = absurd (cc (ap (λ (x : Granted). x.0) h))
  decided-ok collect c (ok d) h = by_need d.confirmation_required h
    where
      answer : Outcome ConfirmationResponse
      answer = collected collect r m (canonical_summary r m.phrase)

      by_need :
          (b : Bool)
          → (if b
              then responded r m (begin r m c) answer
              else (raised (value_error "action does not require trusted confirmation"), c))
            ≡ (ok r', c')
          → IsGranted c
      by_need true h = responded-ok c answer h
      by_need false h = absurd (cc (ap (λ (x : Granted). x.0) h))

  approve_from_trusted_input-ok :
      (collect : Collect) (c : TrustedConfirmer)
      → approve_from_trusted_input collect r m c ≡ (ok r', c')
      → IsGranted c
  unfolding approve_from_trusted_input
  approve_from_trusted_input-ok collect c h = by_token r.capability_token h
    where
      by : Option String → Granted
      by o = elim o [
        | some _ ↦ (raised (value_error "caller-supplied capabilities are forbidden"), c)
        | none ↦ decided collect r m c (evaluate r)
      ]

      by_token : (o : Option String) → by o ≡ (ok r', c') → IsGranted c
      by_token (some _) h = absurd (cc (ap (λ (x : Granted). x.0) h))
      by_token none h = decided-ok collect c (evaluate r) h

empty_refused :
    ⦃py : Stdlib⦄ (a : CapabilityAuthority) (now : ℕ) (r : ActionRequest)
    → is_ok (verify a now "" r true).0 ≡ false
unfolding verify check read_token split_dot
empty_refused a now r = refl

module _ ⦃py : Stdlib⦄ {World : Type 0} (x : Executor World) (t : Clock) (r : ActionRequest)
    (b : Broker World) (d : PolicyDecision) (token : String) where
  -- the world is the one that the executor leaves
  abbrev Ran : Outcome ActionResult × Broker World → Type 0
  Ran o = o.1.world ≡ (x.execute r d.policy b.world).1

  verified-Ran :
      (o : Outcome Dict × CapabilityAuthority)
      → is_ok o.0 ≡ true
      → Ran (after_verify x t r d.policy b o)
  verified-Ran (ok payload, a) h = run-world x t.at_record r d.policy (record b { authority = a })
  verified-Ran (raised e, a) h = absurd (cc h)

  with_token-Ran :
      (z : Bool)
      → str_eq token "" ≡ z
      → is_ok (verify b.authority t.at_verify token r true).0 ≡ true
      → Ran (with_token x t r d b (if z then none else some token))
  with_token-Ran true h v =
      let refused =
        ap (λ s. is_ok (verify b.authority t.at_verify s r true).0) ((eq_iff token "").0 h) in
      absurd (cc (refused, v, empty_refused b.authority t.at_verify r))
  with_token-Ran false h v = verified-Ran (verify b.authority t.at_verify token r true) v

  -- a submission whose token the authority accepts
  submit-Ran :
      is_expired r.expires_at t.at_entry ≡ ok false
      → evaluate r ≡ ok d
      → r.capability_token ≡ some token
      → is_ok (verify b.authority t.at_verify token r true).0 ≡ true
      → Ran (submit x t r b)
  unfolding submit Submit.decided
  submit-Ran current e k v =
      rw (submit, current, e) (by_need d.confirmation_required r.capability_token k)
    where
      by_need :
          (c : Bool) (o : Option String)
          → o ≡ some token
          → Ran (if c then with_token x t r d b (token_text o) else run x t.at_record r d.policy b)
      by_need true o h = rw h (with_token-Ran (str_eq token "") refl v)
      by_need false o h = run-world x t.at_record r d.policy b

module _ ⦃py : Stdlib⦄ {World : Type 0} where
  -- A request that the trusted input has approved and the policy lets through is executed once it is
  -- submitted before the request and its capability expire, to a broker with the confirmer's key that
  -- has not used the capability's identifier, when the codec works for its token: the world is the one
  -- that the executor leaves.
  pub approved_runs :
      (collect : Collect) (r r' : ActionRequest) (m : Moment) (c c' : TrustedConfirmer)
      (x : Executor World) (t : Clock) (b : Broker World) (d : PolicyDecision)
      → approve_from_trusted_input collect r m c ≡ (ok r', c')
      → evaluate r' ≡ ok d
      → is_expired r'.expires_at t.at_entry ≡ ok false
      → b.authority.key ≡ c.authority.key
      → t.at_verify < m.issued + c.capability_ttl_seconds * 1000000
      → (str_eq m.jti "" || elem m.jti b.authority.consumed) ≡ false
      → IsFaithful c.authority.key
          (payload_of r m.jti (m.issued + c.capability_ttl_seconds * 1000000))
          (m.issued + c.capability_ttl_seconds * 1000000)
      → (submit x t r' b).1.world ≡ (x.execute r' d.policy b.world).1
  unfolding arguments_digest
  approved_runs collect r r' m c c' x t b d given e current same soon unused f =
      let g = approve_from_trusted_input-ok r r' m c' collect c given in
      let accepted =
        issue-verify_iff c.authority b.authority m.jti g.token m.issued c.capability_ttl_seconds
          t.at_verify r r' true g.issued same f in
      submit-Ran x t r' b d g.token current e
        (ap (λ (q : ActionRequest). q.capability_token) g.request) (accepted ∙ same_request g)
    where
      expiry : ℕ
      expiry = m.issued + c.capability_ttl_seconds * 1000000

      same_request :
          IsGranted r r' m c' c
          → (ltb t.at_verify expiry
              && (str_eq r.action r'.action
                  && str_eq r.target r'.target
                  && str_eq (arguments_digest r) (arguments_digest r')
                  && str_eq (origin_value r.origin) (origin_value r'.origin))
              && not (str_eq m.jti "" || elem m.jti b.authority.consumed))
            ≡ true
      same_request g =
          rw
            (
              ap (λ (q : ActionRequest). q.action) g.request,
              ap (λ (q : ActionRequest). q.target) g.request,
              ap (λ (q : ActionRequest). arguments_digest q) g.request,
              ap (λ (q : ActionRequest). q.origin) g.request,
              eq_refl r.action,
              eq_refl r.target,
              eq_refl (arguments_digest r),
              eq_refl (origin_value r.origin),
              lt→ltb t.at_verify expiry soon,
              unused,
            )
            refl
