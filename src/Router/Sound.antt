-- ===== src/Router/Sound.antt =====
-- `OfflineRouter` of src/clausis/router.py against the allowlist of src/clausis/policy.py.
use clausis.Prelude.{
  String, ◌≡◌, ◌⊎◌, inl, inr, refl, subst, ap, ◌∙◌, Bool, true, false, ◌&&◌, ◌||◌, not, List, [],
  ◌∷◌, Option, none, some, arith, if◌then◌else◌, ltb, all, elem, str_eq, and_true, is_empty, length,
}
use clausis.Outcome.{ok, raised, value_error, ok-injective, ◌>>=◌, ◌>>◌, >>=-eq-ok}
use clausis.Stdlib.{Stdlib, Text}
use clausis.Text.{codes, strip, normalize_spaces}
use clausis.Models.Request.{ActionRequest, rank, local_voice, post_init}
use clausis.Policy.Rule.{ActionPolicy, validate}
use clausis.Policy.Table.{action_policies}
use clausis.Policy.Evaluate.{policy_of, evaluate, evaluate_by, decide}
use clausis.Router.Builder.{Match, Patterns, Builder, CommandPattern, request_of}
use clausis.Router.Build.{build}
use clausis.Router.Kind.{Kind, kind_of, IsOfKind, build-IsOfKind, post_init-ok}
use clausis.Router.Commands.{commands}
use clausis.Router.Route.{route, routed, returned, find_command, first_match}

-- the actions that the assistant carries out itself
abbrev pub is_voice_action : String → Bool
is_voice_action a = elem a ("voice.stop" ∷ "voice.repeat" ∷ "voice.cancel" ∷ "voice.correct" ∷ [])

-- the entry of the allowlist demands no more risk than is stated and allows what is stated of undoing
abbrev covers : Option ActionPolicy → Kind → Bool
covers none k = false
covers (some p) k =
    not (ltb (rank k.risk) (rank p.minimum_risk)) && not (k.reversible && not p.reversible)

abbrev is_covered : Kind → Bool
is_covered k = is_voice_action k.action || covers (policy_of k.action) k

some-injective : {A : Type 0} {a b : A} → some a ≡ some b → a ≡ b
some-injective {a = a} h = ap (λ o. elim o [ some x ↦ x | none ↦ a ]) h

opposite_false : {b : Bool} → not b ≡ true → b ≡ false
opposite_false {b = b} h = ground arith

or_true : (a b : Bool) → (a || b) ≡ true → (a ≡ true) ⊎ (b ≡ true)
or_true a b h = ground arith

table_is_covered : all (λ c. is_covered (kind_of c.builder)) commands ≡ true
unfolding commands policy_of action_policies
table_is_covered = refl

find_command-is_covered :
    (re : Patterns) (t : Text) (cs : List CommandPattern) (b : Builder) (m : Match)
    → all (λ c. is_covered (kind_of c.builder)) cs ≡ true
    → find_command re t cs ≡ some (b, m)
    → is_covered (kind_of b) ≡ true
unfolding find_command
find_command-is_covered re t [] b m e h = absurd (cc h)
find_command-is_covered re t (c ∷ cs) b m e h =
    let (covered, rest) = and_true _ _ e in
    step (first_match re t c.patterns) covered (find_command-is_covered re t cs b m rest) h
  where
    step :
        (o : Option Match)
        → is_covered (kind_of c.builder) ≡ true
        → (find_command re t cs ≡ some (b, m) → is_covered (kind_of b) ≡ true)
        → elim o [ some m ↦ some (c.builder, m) | none ↦ find_command re t cs ] ≡ some (b, m)
        → is_covered (kind_of b) ≡ true
    step none covered later h = later h
    step (some n) covered later h =
        subst (λ b. is_covered (kind_of b) ≡ true) (ap (λ p. p.0) (some-injective h)) covered

module _ ⦃py : Stdlib⦄ where
  returned-IsOfKind :
      (k : Kind) (q r : ActionRequest) → IsOfKind k q → returned q ≡ ok (some r) → IsOfKind k r
  returned-IsOfKind k q r same = step (str_eq q.action "voice.stop")
    where
      step :
          (stops : Bool)
          → (if stops then ok (some q) else (do
            s ← post_init (request_of q.action q.target q.arguments q.risk q.reversible)
            ok (some s)))
            ≡ ok (some r)
          → IsOfKind k r
      step true h = subst (IsOfKind k) (some-injective (ok-injective h)) same
      step false h =
          let (s, made, h) =
            >>=-eq-ok (post_init (request_of q.action q.target q.arguments q.risk q.reversible)) _
              h in
          let same_request = post_init-ok _ s made ∙ some-injective (ok-injective h) in
          subst (IsOfKind k) same_request (record {
            same_action = same.same_action;
            same_risk = same.same_risk;
            same_reversibility = same.same_reversibility;
            local = refl;
            no_token = refl;
          })

  -- What the allowlist says of a request of a kind that it covers: only the validator of its entry is
  -- left to refuse it.
  evaluate-covered :
      (k : Kind) (r : ActionRequest)
      → IsOfKind k r
      → (o : Option ActionPolicy) → covers o k ≡ true
      → (p : ActionPolicy) × (o ≡ some p)
        × (evaluate_by p r ≡ (do validate p.validator r; ok (decide p r)))
  unfolding evaluate_by
  evaluate-covered k r same none e = absurd (cc e)
  evaluate-covered k r same (some p) e =
      let (risk, undo) = and_true _ _ e in
      let risk_lem =
        ap (λ v. ltb (rank v) (rank p.minimum_risk)) same.same_risk ∙ opposite_false risk in
      let undo_lem =
        ap (λ v. v && not p.reversible) same.same_reversibility ∙ opposite_false undo in
      (p, refl, simp (risk_lem, undo_lem))

  -- A local request without a token, for an action of the assistant or for one that the allowlist
  -- leaves to the validator of its entry alone.
  abbrev pub IsAdmissible : ActionRequest → Type 0
  IsAdmissible r =
      (r.origin ≡ local_voice)
      × (r.capability_token ≡ none)
      × ((is_voice_action r.action ≡ true)
          ⊎ ((p : ActionPolicy) × (policy_of r.action ≡ some p)
              × (evaluate r ≡ (do validate p.validator r; ok (decide p r)))))

  admitted : (k : Kind) (r : ActionRequest) → is_covered k ≡ true → IsOfKind k r → IsAdmissible r
  unfolding evaluate
  admitted k r covered same = step (or_true _ _ covered)
    where
      by_entry : (p : ActionPolicy) → policy_of r.action ≡ some p → evaluate r ≡ evaluate_by p r
      by_entry p found =
          ap
            (λ o. elim o [
              | none ↦ raised (value_error "action is not allowlisted")
              | some p ↦ evaluate_by p r
            ])
            found

      step :
          (is_voice_action k.action ≡ true) ⊎ (covers (policy_of k.action) k ≡ true)
          → IsAdmissible r
      step (inl voice) =
          (same.local, same.no_token, inl (ap is_voice_action same.same_action ∙ voice))
      step (inr e) =
          let (p, found, evaluated) =
            evaluate-covered k r same (policy_of r.action)
              (ap (λ a. covers (policy_of a) k) same.same_action ∙ e) in
          (same.local, same.no_token, inr (p, found, by_entry p found ∙ evaluated))

  -- A text that `route` makes a request of gives a local request without a token. Either the action is
  -- one of the four of the assistant itself, or the allowlist has an entry for it and `evaluate`
  -- comes to that entry's validator alone: neither the stated risk nor the stated reversibility can
  -- be the reason of a refusal.
  pub route-evaluate :
      (re : Patterns) (transcript : String) (r : ActionRequest)
      → route re transcript ≡ ok (some r)
      → IsAdmissible r
  unfolding route evaluate
  route-evaluate re transcript r h = step (is_empty normalized || ltb 1024 (length normalized)) h
    where
      normalized : Text
      normalized = normalize_spaces (strip (codes transcript))

      found :
          (o : Option (Builder × Match))
          → find_command re normalized commands ≡ o
          → routed re o ≡ ok (some r)
          → IsAdmissible r
      found none e h = absurd (cc h)
      found (some (b, m)) e h =
          let (q, built, h) = >>=-eq-ok (build re b m) returned h in
          admitted (kind_of b) r
            (find_command-is_covered re normalized commands b m table_is_covered e)
            (returned-IsOfKind (kind_of b) q r (build-IsOfKind re b m q built) h)

      step :
          (b : Bool)
          → (if b then ok none else routed re (find_command re normalized commands)) ≡ ok (some r)
          → IsAdmissible r
      step true h = absurd (cc h)
      step false h = found _ refl h
