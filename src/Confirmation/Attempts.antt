-- ===== src/Confirmation/Attempts.antt =====
-- How often `approve` of src/clausis/confirmation.py can be tried, and what its success needs.
use clausis.Prelude.{
  ℕ, suc, ◌+◌, ◌≤◌, ◌<◌, String, ◌≡◌, ◌⊎◌, inl, inr, refl, subst, Bool, true, false, List, [], ◌∷◌,
  none, some, arith, eq_refl, leb, ltb, length, lookup, without, put, lookup-put, lookup-without,
}
use clausis.Outcome.{Exception, Outcome, ok, raised}
use clausis.Stdlib.{Stdlib}
use clausis.Capabilities.{issue}
use clausis.Confirmation.Phrase.{same_phrase}
use clausis.Confirmation.Pin.{verify_pin}
use clausis.Confirmation.Confirmer.{
  PendingConfirmation, TrustedConfirmer, ConfirmationResponse, Moment, after_phrase, after_pin,
  after_count, after_expiry, counted, approve,
}

pub lookup-without_self :
    (id : String) (l : List (String × PendingConfirmation)) → lookup id (without id l) ≡ none
lookup-without_self id l = simp (lookup-without, eq_refl)

pub lookup-put_self :
    (id : String) (p : PendingConfirmation) (l : List (String × PendingConfirmation))
    → lookup id (put id p l) ≡ some p
lookup-put_self id p l = simp (lookup-put, eq_refl)

module _ ⦃py : Stdlib⦄ where
  -- After a failed or successful attempt the confirmation is gone, or it counts one attempt more and
  -- at most three.
  abbrev pub Counted : String → ℕ → TrustedConfirmer → Type 0
  Counted id k c =
      (lookup id c.pending ≡ none)
      ⊎ ((p : PendingConfirmation) × (lookup id c.pending ≡ some p)
          × (p.attempts ≡ k)
          × (p.attempts ≤ 3))

  after_phrase-Counted :
      (id : String) (response : ConfirmationResponse) (m : Moment) (p : PendingConfirmation)
      (c : TrustedConfirmer) (o : Outcome Bool)
      → p.attempts ≤ 3
      → lookup id c.pending ≡ some p
      → Counted id p.attempts (after_phrase id response m p c o).1
  after_phrase-Counted id response m p c (raised e) few there = inr (p, there, refl, few)
  after_phrase-Counted id response m p c (ok false) few there = inr (p, there, refl, few)
  after_phrase-Counted id response m p c (ok true) few there =
      by_pin (verify_pin c.pin response.pin)
    where
      by_pin : (b : Bool) → Counted id p.attempts (after_pin id m p c b).1
      by_pin true = inl (lookup-without_self id c.pending)
      by_pin false = inr (p, there, refl, few)

  approve-Counted :
      (id : String) (response : ConfirmationResponse) (m : Moment) (p : PendingConfirmation)
      (c : TrustedConfirmer)
      → lookup id c.pending ≡ some p
      → Counted id (p.attempts + 1) (approve id response m c).1
  unfolding approve
  approve-Counted id response m p c there =
      rw (there, approve) (in_time (leb p.expires_at m.approved))
    where
      p' : PendingConfirmation
      p' = record p { attempts = p.attempts + 1 }

      few_left :
          (b : Bool)
          → ltb 3 p'.attempts ≡ b
          → Counted id p'.attempts (after_count id response m p' (counted id p c) b).1
      few_left true e = inl (lookup-without_self id (counted id p c).pending)
      few_left false e =
          after_phrase-Counted id response m p' (counted id p c)
            (same_phrase response.phrase p'.phrase) (ground arith) (lookup-put_self id p' c.pending)

      in_time : (b : Bool) → Counted id p'.attempts (after_expiry id response m p c b).1
      in_time true = inl (lookup-without_self id c.pending)
      in_time false = few_left (ltb 3 p'.attempts) refl

  approve-unknown :
      (id : String) (response : ConfirmationResponse) (m : Moment) (c : TrustedConfirmer)
      → lookup id c.pending ≡ none
      → approve id response m c ≡ (raised (Exception.value_error "unknown confirmation"), c)
  unfolding approve
  approve-unknown id response m c h = rw (h, approve)

  -- The state after several attempts on one confirmation.
  unfoldable pub attempt_all :
      String → List (ConfirmationResponse × Moment) → TrustedConfirmer → TrustedConfirmer
  attempt_all id [] c = c
  attempt_all id ((response, m) ∷ more) c = attempt_all id more (approve id response m c).1

  attempt_all-unknown :
      (id : String) (l : List (ConfirmationResponse × Moment)) (c : TrustedConfirmer)
      → lookup id c.pending ≡ none
      → lookup id (attempt_all id l c).pending ≡ none
  unfolding attempt_all
  attempt_all-unknown id [] c h = h
  attempt_all-unknown id ((response, m) ∷ more) c h =
      attempt_all-unknown id more (approve id response m c).1
        (rw (approve-unknown id response m c h) h)

  attempt_all-Counted :
      (id : String) (l : List (ConfirmationResponse × Moment)) (p : PendingConfirmation)
      (c : TrustedConfirmer)
      → lookup id c.pending ≡ some p
      → p.attempts ≤ 3
      → Counted id (p.attempts + length l) (attempt_all id l c)
  unfolding attempt_all
  attempt_all-Counted id [] p c h few = inr (p, h, omega arith, few)
  attempt_all-Counted id ((response, m) ∷ more) p c h few =
      next (λ q there few. attempt_all-Counted id more q (approve id response m c).1 there few)
        (approve-Counted id response m p c h)
    where
      rest : TrustedConfirmer
      rest = attempt_all id more (approve id response m c).1

      next :
          ((q : PendingConfirmation)
            → lookup id (approve id response m c).1.pending ≡ some q
            → q.attempts ≤ 3
            → Counted id (q.attempts + length more) rest)
          → Counted id (p.attempts + 1) (approve id response m c).1
          → Counted id (p.attempts + suc (length more)) rest
      next ih (inl gone) = inl (attempt_all-unknown id more (approve id response m c).1 gone)
      next ih (inr (q, there, count, few)) =
          subst (λ (k : ℕ). Counted id k rest) (omega arith) (ih q there few)

  -- A fresh confirmation bears at most three failed attempts: after four, with whatever responses and
  -- at whatever times, it is no longer pending. In general, so it is as soon as the attempts before
  -- and now are more than three.
  pub attempts_limited :
      (id : String) (l : List (ConfirmationResponse × Moment)) (p : PendingConfirmation)
      (c : TrustedConfirmer)
      → lookup id c.pending ≡ some p
      → p.attempts ≤ 3
      → 3 < p.attempts + length l
      → lookup id (attempt_all id l c).pending ≡ none
  attempts_limited id l p c h few many = elim (attempt_all-Counted id l p c h few) [
    | inl gone ↦ gone
    | inr (q, there, count, limit) ↦ absurd (omega arith)
  ]

  -- What a successful approval has needed: the confirmation was pending, not expired, with fewer than
  -- three attempts before, the phrase and the PIN were right; the capability is one for the pending
  -- request, and the confirmation is used up.
  pub record IsApproved (id : String) (response : ConfirmationResponse) (m : Moment)
      (c : TrustedConfirmer) (token : String) (after : TrustedConfirmer) : Type 0 where
    pub entry : PendingConfirmation
    pub was_pending : lookup id c.pending ≡ some entry
    pub in_time : m.approved < entry.expires_at
    pub few_attempts : entry.attempts < 3
    pub phrase_matched : same_phrase response.phrase entry.phrase ≡ ok true
    pub pin_matched : verify_pin c.pin response.pin ≡ true
    pub issued : issue c.authority m.jti m.issued entry.request c.capability_ttl_seconds ≡ ok token
    pub used_up : lookup id after.pending ≡ none
