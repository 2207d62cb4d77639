-- ===== src/Confirmation/Approval.antt =====
-- The only way to a capability: what `approve` and `approve_from_trusted_input` of
-- src/clausis/confirmation.py need and leave behind.
use clausis.Prelude.{
  ◌+◌, String, ◌≡◌, refl, ap, Bool, true, false, Option, none, some, arith, leb, ltb, lookup,
}
use clausis.Outcome.{Outcome, ok, raised}
use clausis.Stdlib.{Stdlib}
use clausis.Capabilities.{issue}
use clausis.Confirmation.Phrase.{same_phrase}
use clausis.Confirmation.Pin.{verify_pin}
use clausis.Confirmation.Confirmer.{
  PendingConfirmation, TrustedConfirmer, ConfirmationResponse, Moment, dropped, found, after_phrase,
  after_pin, after_count, after_expiry, counted, approve,
}
use clausis.Confirmation.Attempts.{IsApproved, lookup-without_self}

abbrev Answer : Type 0
Answer = Outcome String × TrustedConfirmer

first : {a b : Answer} → a ≡ b → a.0 ≡ b.0
first h = ap (λ (x : Answer). x.0) h

second : {a b : Answer} → a ≡ b → a.1 ≡ b.1
second h = ap (λ (x : Answer). x.1) h

module _ ⦃py : Stdlib⦄ (id token : String) (response : ConfirmationResponse) (m : Moment)
    (after : TrustedConfirmer) where
  after_pin-ok :
      (p : PendingConfirmation) (c : TrustedConfirmer) (b : Bool)
      → after_pin id m p c b ≡ (ok token, after)
      → (b ≡ true)
        × (issue c.authority m.jti m.issued p.request c.capability_ttl_seconds ≡ ok token)
        × (dropped id c ≡ after)
  after_pin-ok p c true h = (refl, first h, second h)
  after_pin-ok p c false h = absurd (cc (first h))

  after_phrase-ok :
      (p : PendingConfirmation) (c : TrustedConfirmer) (o : Outcome Bool)
      → after_phrase id response m p c o ≡ (ok token, after)
      → (o ≡ ok true) × (after_pin id m p c (verify_pin c.pin response.pin) ≡ (ok token, after))
  after_phrase-ok p c (raised e) h = absurd (cc (first h))
  after_phrase-ok p c (ok false) h = absurd (cc (first h))
  after_phrase-ok p c (ok true) h = (refl, h)

  after_count-ok :
      (p : PendingConfirmation) (c : TrustedConfirmer) (b : Bool)
      → after_count id response m p c b ≡ (ok token, after)
      → (b ≡ false)
        × (after_phrase id response m p c (same_phrase response.phrase p.phrase)
            ≡ (ok token, after))
  after_count-ok p c true h = absurd (cc (first h))
  after_count-ok p c false h = (refl, h)

  after_expiry-ok :
      (p : PendingConfirmation) (c : TrustedConfirmer) (b : Bool)
      → after_expiry id response m p c b ≡ (ok token, after)
      → (b ≡ false)
        × (after_count id response m
              (record p { attempts = p.attempts + 1 })
              (counted id p c)
              (ltb 3 (p.attempts + 1))
            ≡ (ok token, after))
  after_expiry-ok p c true h = absurd (cc (first h))
  after_expiry-ok p c false h = (refl, h)

  found-ok :
      (c : TrustedConfirmer) (o : Option PendingConfirmation)
      → found id response m c o ≡ (ok token, after)
      → (p : PendingConfirmation) × (o ≡ some p)
        × (after_expiry id response m p c (leb p.expires_at m.approved) ≡ (ok token, after))
  found-ok c none h = absurd (cc (first h))
  found-ok c (some p) h = (p, refl, h)

  -- A capability is issued only for a pending, unexpired confirmation with fewer than three earlier
  -- attempts, after the right phrase and the right PIN, for exactly the request that is pending; the
  -- confirmation cannot be used again.
  pub approve-IsApproved :
      (c : TrustedConfirmer)
      → approve id response m c ≡ (ok token, after)
      → IsApproved id response m c token after
  unfolding approve
  approve-IsApproved c h =
      let (p, there, h) = found-ok c (lookup id c.pending) h in
      let (late, h) = after_expiry-ok p c (leb p.expires_at m.approved) h in
      let (few, h) =
        after_count-ok (record p { attempts = p.attempts + 1 }) (counted id p c)
          (ltb 3 (p.attempts + 1)) h in
      let (phrase, h) =
        after_phrase-ok (record p { attempts = p.attempts + 1 }) (counted id p c)
          (same_phrase response.phrase p.phrase) h in
      let (pin, issued, left) =
        after_pin-ok (record p { attempts = p.attempts + 1 }) (counted id p c)
          (verify_pin c.pin response.pin) h in
      record {
        entry = p;
        was_pending = there;
        in_time = ground arith;
        few_attempts = ground arith;
        phrase_matched = phrase;
        pin_matched = pin;
        issued = issued;
        used_up = rw (← left) (lookup-without_self id (counted id p c).pending);
      }
