-- ===== src/Broker/Replay.antt =====
-- A token confirms one run: what follows from `submit` of src/clausis/broker.py over histories.
use clausis.Prelude.{
  ℕ, String, ◌≡◌, ◌≢◌, inl, inr, refl, subst, Bool, true, false, Option, none, some, arith, elem,
  lookup, List, [], ◌∷◌, if◌then◌else◌, eq_refl,
}
use clausis.Outcome.{Exception, Outcome, ok, raised}
use clausis.Stdlib.{Stdlib}
use clausis.Models.Value.{Dict}
use clausis.Models.Request.{Origin, hermes, external_content, ActionRequest, ActionResult}
use clausis.Policy.Rule.{ActionPolicy}
use clausis.Policy.Evaluate.{PolicyDecision, evaluate, is_tainted}
use clausis.Policy.Evaluate.Decisions.{evaluate_sound}
use clausis.Capabilities.{CapabilityAuthority, verify, check, jti_of, consume_jti}
use clausis.Capabilities.Binding.{IsSigned, verify_binds, used_up}
use clausis.Broker.Executor.{Executor}
use clausis.Broker.Submit.{
  Clock, Broker, answer_error, finish, run, after_verify, decided, is_expired, evaluated, submit,
  with_token, unless_expired, token_text, capability_error_text, value_error_text,
  executor_error_text,
}
use clausis.Broker.Authorisation.{IsAuthorised, submit-Effect}

-- Every identifier that the first authority has used, the second one has used too.
abbrev pub Keeps : CapabilityAuthority → CapabilityAuthority → Type 0
Keeps a c = (j : String) → elem j a.consumed ≡ true → elem j c.consumed ≡ true

module _ ⦃py : Stdlib⦄ where
  verify-Keeps :
      (a : CapabilityAuthority) (now : ℕ) (token : String) (r : ActionRequest)
      → Keeps a (verify a now token r true).1
  unfolding verify
  verify-Keeps a now token r = kept (check a now token r)
    where
      kept : (o : Outcome Dict) → Keeps a (consume_jti true o a)
      kept (ok payload) j h = rw h (ground arith)
      kept (raised e) j h = h

module _ ⦃py : Stdlib⦄ {World : Type 0} where
  answer_error-authority :
      (now : ℕ) (r : ActionRequest) (s : String) (e : Exception) (m : Option String)
      (b : Broker World)
      → (answer_error now r s e m b).1.authority ≡ b.authority
  answer_error-authority now r s e none b = refl
  answer_error-authority now r s e (some m) b = refl

  run-authority :
      (x : Executor World) (now : ℕ) (r : ActionRequest) (p : ActionPolicy) (b : Broker World)
      → (run x now r p b).1.authority ≡ b.authority
  unfolding run
  run-authority x now r p b = finished (x.execute r p b.world)
    where
      finished : (o : Outcome ActionResult × World) → (finish now r b o).1.authority ≡ b.authority
      finished (ok result, w) = refl
      finished (raised e, w) =
          answer_error-authority now r "failed" e (executor_error_text e) (record b { world = w })

  after_verify-authority :
      (x : Executor World) (t : Clock) (r : ActionRequest) (p : ActionPolicy) (b : Broker World)
      (v : Outcome Dict × CapabilityAuthority)
      → (after_verify x t r p b v).1.authority ≡ v.1
  after_verify-authority x t r p b (ok payload, a) =
      run-authority x t.at_record r p (record b { authority = a })
  after_verify-authority x t r p b (raised e, a) =
      answer_error-authority t.at_record r "denied" e (capability_error_text e)
        (record b { authority = a })

  -- No submission forgets a used identifier.
  submit-Keeps :
      (x : Executor World) (t : Clock) (r : ActionRequest) (b : Broker World)
      → Keeps b.authority (submit x t r b).1.authority
  unfolding submit decided
  submit-Keeps x t r b = by_expiry (is_expired r.expires_at t.at_entry)
    where
      same : (c : CapabilityAuthority) → c ≡ b.authority → Keeps b.authority c
      same c e j h = rw e h

      by_token :
          (d : PolicyDecision) (o : Option String)
          → Keeps b.authority (with_token x t r d b o).1.authority
      by_token d none j h = h
      by_token d (some token) j h =
          rw (after_verify-authority x t r d.policy b (verify b.authority t.at_verify token r true))
            (verify-Keeps b.authority t.at_verify token r j h)

      by_flag :
          (d : PolicyDecision) (c : Bool)
          → Keeps b.authority
              (if c
                then with_token x t r d b (token_text r.capability_token)
                else run x t.at_record r d.policy b).1.authority
      by_flag d true = by_token d (token_text r.capability_token)
      by_flag d false = same _ (run-authority x t.at_record r d.policy b)

      by_decision :
          (o : Outcome PolicyDecision) → Keeps b.authority (evaluated x t r o b).1.authority
      by_decision (ok d) = by_flag d d.confirmation_required
      by_decision (raised e) =
          same _ (answer_error-authority t.at_record r "denied" e (value_error_text e) b)

      by_expiry : (o : Outcome Bool) → Keeps b.authority (unless_expired x t r b o).1.authority
      by_expiry (raised e) = same _ refl
      by_expiry (ok true) = same _ refl
      by_expiry (ok false) = by_decision (evaluate r)

  -- Several submissions, one after the other.
  unfoldable pub submit_all :
      Executor World → List (Clock × ActionRequest) → Broker World → Broker World
  submit_all x [] b = b
  submit_all x ((t, r) ∷ history) b = submit_all x history (submit x t r b).1

  submit_all-Keeps :
      (x : Executor World) (history : List (Clock × ActionRequest)) (b : Broker World)
      → Keeps b.authority (submit_all x history b).authority
  unfolding submit_all
  submit_all-Keeps x [] b j h = h
  submit_all-Keeps x ((t, r) ∷ history) b j h =
      submit_all-Keeps x history (submit x t r b).1 j (submit-Keeps x t r b j h)

  -- A request of Hermes or of external content that carries no token never reaches the executor,
  -- whatever its action, its risk and its arguments are.
  pub tainted_needs_token :
      (x : Executor World) (t : Clock) (r : ActionRequest) (b : Broker World)
      → is_tainted r.origin ≡ true
      → token_text r.capability_token ≡ none
      → (submit x t r b).1.world ≡ b.world
  tainted_needs_token x t r b tainted no_token = elim (submit-Effect x t r b) [
    | inl same ↦ same
    | inr (p, reason, _) ↦ elim reason.confirmed [
      | inl free ↦ absurd (tainted_not_free reason free)
      | inr (token, payload, there, _, _) ↦ absurd (cc (no_token, there))
    ]
  ]
    where
      clean : (o : Origin) → is_tainted o ≡ true → o ≢ hermes → o ≢ external_content → ⊥
      clean hermes h a b = a refl
      clean external_content h a b = b refl
      clean _ h a b = cc h

      tainted_not_free :
          {p : ActionPolicy} (reason : IsAuthorised t r b p)
          → reason.decision.confirmation_required ≡ false
          → ⊥
      tainted_not_free reason free =
          let harmless = (evaluate_sound r reason.decision reason.evaluated).confirmation.0 free in
          clean r.origin tainted harmless.not_hermes harmless.not_external

  -- A submission whose token is accepted leaves the authority that `verify` left.
  accepted-authority :
      (x : Executor World) (t : Clock) (r : ActionRequest) (b : Broker World) (d : PolicyDecision)
      (token : String) (payload : Dict) (a : CapabilityAuthority)
      → is_expired r.expires_at t.at_entry ≡ ok false
      → evaluate r ≡ ok d
      → d.confirmation_required ≡ true
      → token_text r.capability_token ≡ some token
      → verify b.authority t.at_verify token r true ≡ (ok payload, a)
      → (submit x t r b).1.authority ≡ a
  unfolding submit decided
  accepted-authority x t r b d token payload a current e c k v =
      rw (submit, current, e, decided, c, k, v)
        (run-authority x t.at_record r d.policy (record b { authority = a }))

  -- Once the broker has accepted a token for a request, no later submission with the same token
  -- reaches the executor when its policy asks for a confirmation: whatever the request, the clock and
  -- the submissions in between.
  pub token_runs_once :
      (x : Executor World) (t t' : Clock) (r r' : ActionRequest) (b : Broker World)
      (d d' : PolicyDecision) (token : String) (payload : Dict) (a : CapabilityAuthority)
      (history : List (Clock × ActionRequest))
      → is_expired r.expires_at t.at_entry ≡ ok false
      → evaluate r ≡ ok d
      → d.confirmation_required ≡ true
      → token_text r.capability_token ≡ some token
      → verify b.authority t.at_verify token r true ≡ (ok payload, a)
      → evaluate r' ≡ ok d'
      → d'.confirmation_required ≡ true
      → token_text r'.capability_token ≡ some token
      → let b' = submit_all x history (submit x t r b).1 in (submit x t' r' b').1.world ≡ b'.world
  token_runs_once x t t' r r' b d d' token payload a history current e c k v e' c' k' =
      let b' = submit_all x history (submit x t r b).1 in
      let keeps : Keeps a b'.authority = λ j h.
        submit_all-Keeps x history (submit x t r b).1 j
          (rw (accepted-authority x t r b d token payload a current e c k v) h) in
      let (signed, _, after) = verify_binds b.authority a t.at_verify token r payload v in
      let jti = jti_of (lookup "jti" payload) in
      let used : elem jti b'.authority.consumed ≡ true =
        keeps jti (rw after (ground (arith, eq_refl jti))) in
      elim (submit-Effect x t' r' b') [
        | inl same ↦ same
        | inr (p, reason, _) ↦ elim reason.confirmed [
          | inl free ↦ absurd (cc (reason.evaluated, e', c', free))
          | inr (token', payload', there, signed', bound) ↦ absurd (
              used_up b.authority b'.authority token payload payload' t'.at_verify r' signed used
                (subst (λ (q : String). IsSigned b'.authority q payload') (cc (k', there)) signed')
                bound)
        ]
      ]
