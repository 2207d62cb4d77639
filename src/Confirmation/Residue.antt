-- ===== src/Confirmation/Residue.antt =====
-- What an approval of src/clausis/confirmation.py leaves in the table of pending confirmations.
use clausis.Prelude.{
  ◌+◌, ◌*◌, String, ◌≡◌, refl, sym, ap, ◌∙◌, Bool, true, false, List, Option, none, some, eq_iff,
  str_eq, if◌then◌else◌, leb, ltb, lookup, without, put, lookup-put, lookup-without,
}
use clausis.Outcome.{Outcome, ok, raised, value_error}
use clausis.Stdlib.{Stdlib}
use clausis.Models.Request.{ActionRequest}
use clausis.Policy.Evaluate.{PolicyDecision, evaluate}
use clausis.Confirmation.Summary.{canonical_summary}
use clausis.Confirmation.Phrase.{same_phrase}
use clausis.Confirmation.Pin.{verify_pin}
use clausis.Confirmation.Confirmer.{
  PendingConfirmation, TrustedConfirmer, ConfirmationResponse, Moment, Collect, dropped, found,
  after_phrase, after_pin, after_count, after_expiry, counted, approve, begin, deny, concluded,
  responded, collected, decided, approve_from_trusted_input,
}
use clausis.Confirmation.Attempts.{lookup-without_self}
use clausis.Confirmation.Approval.{approve-IsApproved}

lookup-without_ne :
    (id j : String) (l : List (String × PendingConfirmation))
    → str_eq id j ≡ false
    → lookup j (without id l) ≡ lookup j l
lookup-without_ne id j l ne = rw (lookup-without, ne)

lookup-put_ne :
    (id j : String) (p : PendingConfirmation) (l : List (String × PendingConfirmation))
    → str_eq id j ≡ false
    → lookup j (put id p l) ≡ lookup j l
lookup-put_ne id j p l ne = rw (lookup-put, ne)

module _ ⦃py : Stdlib⦄ (id j : String) (ne : str_eq id j ≡ false) (response : ConfirmationResponse)
    (m : Moment) where
  -- the other confirmation is as it was
  abbrev Same : TrustedConfirmer → TrustedConfirmer → Type 0
  Same c after = lookup j after.pending ≡ lookup j c.pending

  dropped-Same : (c : TrustedConfirmer) → Same c (dropped id c)
  dropped-Same c = lookup-without_ne id j c.pending ne

  after_pin-Same :
      (p : PendingConfirmation) (c : TrustedConfirmer) (b : Bool) → Same c (after_pin id m p c b).1
  after_pin-Same p c true = dropped-Same c
  after_pin-Same p c false = refl

  after_phrase-Same :
      (p : PendingConfirmation) (c : TrustedConfirmer) (o : Outcome Bool)
      → Same c (after_phrase id response m p c o).1
  after_phrase-Same p c (raised e) = refl
  after_phrase-Same p c (ok false) = refl
  after_phrase-Same p c (ok true) = after_pin-Same p c (verify_pin c.pin response.pin)

  after_count-Same :
      (p : PendingConfirmation) (c : TrustedConfirmer) (b : Bool)
      → Same c (after_count id response m p c b).1
  after_count-Same p c true = dropped-Same c
  after_count-Same p c false = after_phrase-Same p c (same_phrase response.phrase p.phrase)

  after_expiry-Same :
      (p : PendingConfirmation) (c : TrustedConfirmer) (b : Bool)
      → Same c (after_expiry id response m p c b).1
  after_expiry-Same p c true = dropped-Same c
  after_expiry-Same p c false =
      after_count-Same (record p { attempts = p.attempts + 1 }) (counted id p c)
        (ltb 3 (p.attempts + 1))
      ∙ lookup-put_ne id j (record p { attempts = p.attempts + 1 }) c.pending ne

  found-Same :
      (c : TrustedConfirmer) (o : Option PendingConfirmation) → Same c (found id response m c o).1
  found-Same c none = refl
  found-Same c (some p) = after_expiry-Same p c (leb p.expires_at m.approved)

  approve-Same : (c : TrustedConfirmer) → Same c (approve id response m c).1
  unfolding approve
  approve-Same c = found-Same c (lookup id c.pending)

-- the entry that `begin` makes
abbrev begun_entry : ActionRequest → Moment → TrustedConfirmer → PendingConfirmation
begun_entry r m c = record {
  request = r;
  phrase = m.phrase;
  expires_at = m.begun + c.ttl_seconds * 1000000;
  attempts = 0;
}

module _ ⦃py : Stdlib⦄ (collect : Collect) (r : ActionRequest) (m : Moment) where
  gone_after :
      (response : ConfirmationResponse) (c : TrustedConfirmer)
      (o : Outcome String × TrustedConfirmer)
      → approve m.confirmation_id response m c ≡ o
      → lookup m.confirmation_id (concluded r m.confirmation_id o).1.pending ≡ none
  unfolding deny
  gone_after response c (ok token, after) h =
      (approve-IsApproved m.confirmation_id token response m after c h).used_up
  gone_after response c (raised e, after) h = lookup-without_self m.confirmation_id after.pending

  others_after :
      (j : String) (c : TrustedConfirmer) (o : Outcome String × TrustedConfirmer)
      → str_eq m.confirmation_id j ≡ false
      → lookup j o.1.pending ≡ lookup j c.pending
      → lookup j (concluded r m.confirmation_id o).1.pending ≡ lookup j c.pending
  unfolding deny
  others_after j c (ok token, after) ne h = h
  others_after j c (raised e, after) ne h =
      lookup-without_ne m.confirmation_id j after.pending ne ∙ h

  -- the approval that `begin` started leaves the table as it was, on the entry j
  responded_leaves_others :
      (c : TrustedConfirmer) (o : Outcome ConfirmationResponse) (j : String)
      → str_eq m.confirmation_id j ≡ false
      → lookup j (responded r m (begin r m c) o).1.pending ≡ lookup j c.pending
  unfolding begin deny
  responded_leaves_others c (raised e) j ne =
      lookup-without_ne m.confirmation_id j (begin r m c).pending ne
      ∙ lookup-put_ne m.confirmation_id j (begun_entry r m c) c.pending ne
  responded_leaves_others c (ok response) j ne =
      others_after j c (approve m.confirmation_id response m (begin r m c)) ne (
        approve-Same m.confirmation_id j ne response m (begin r m c)
        ∙ lookup-put_ne m.confirmation_id j (begun_entry r m c) c.pending ne)

  responded_leaves_own :
      (c : TrustedConfirmer) (o : Outcome ConfirmationResponse)
      → lookup m.confirmation_id (responded r m (begin r m c) o).1.pending ≡ none
  unfolding begin deny
  responded_leaves_own c (raised e) = lookup-without_self m.confirmation_id (begin r m c).pending
  responded_leaves_own c (ok response) =
      gone_after response (begin r m c) (approve m.confirmation_id response m (begin r m c)) refl

  responded_leaves_nothing :
      (c : TrustedConfirmer) (o : Outcome ConfirmationResponse) (j : String) (b : Bool)
      → lookup m.confirmation_id c.pending ≡ none
      → str_eq m.confirmation_id j ≡ b
      → lookup j (responded r m (begin r m c) o).1.pending ≡ lookup j c.pending
  responded_leaves_nothing c o j true fresh e =
      let same = (eq_iff m.confirmation_id j).0 e in
      ap (λ i. lookup i (responded r m (begin r m c) o).1.pending) (sym same)
      ∙ responded_leaves_own c o
      ∙ sym fresh
      ∙ ap (λ i. lookup i c.pending) same
  responded_leaves_nothing c o j false fresh e = responded_leaves_others c o j e

  decided_leaves_nothing :
      (c : TrustedConfirmer) (o : Outcome PolicyDecision) (j : String)
      → lookup m.confirmation_id c.pending ≡ none
      → lookup j (decided collect r m c o).1.pending ≡ lookup j c.pending
  decided_leaves_nothing c (raised e) j fresh = refl
  decided_leaves_nothing c (ok d) j fresh = by_need d.confirmation_required
    where
      answer : Outcome ConfirmationResponse
      answer = collected collect r m (canonical_summary r m.phrase)

      by_need :
          (b : Bool)
          → lookup j
              (if b then responded r m (begin r m c) answer else (
                raised (value_error "action does not require trusted confirmation"),
                c,
              )).1.pending
            ≡ lookup j c.pending
      by_need true = responded_leaves_nothing c answer j (str_eq m.confirmation_id j) fresh refl
      by_need false = refl

  -- Whatever the trusted input answers, fails with or is asked, and whether the request is approved
  -- or not, an approval under a fresh identifier leaves the table of pending confirmations as it was.
  pub approval_leaves_nothing :
      (c : TrustedConfirmer) (j : String)
      → lookup m.confirmation_id c.pending ≡ none
      → lookup j (approve_from_trusted_input collect r m c).1.pending ≡ lookup j c.pending
  unfolding approve_from_trusted_input
  approval_leaves_nothing c j fresh = by_token r.capability_token
    where
      concluded_by : Option String → Outcome ActionRequest × TrustedConfirmer
      concluded_by o = elim o [
        | some _ ↦ (raised (value_error "caller-supplied capabilities are forbidden"), c)
        | none ↦ decided collect r m c (evaluate r)
      ]

      by_token : (o : Option String) → lookup j (concluded_by o).1.pending ≡ lookup j c.pending
      by_token (some _) = refl
      by_token none = decided_leaves_nothing c (evaluate r) j fresh
