-- ===== src/Desktop/Shows.antt =====
-- What the steps of src/clausis/gnome_adapter.py on a text field have seen when they succeed.
use clausis.Prelude.{
  Bool, true, false, ◌≡◌, ◌⊎◌, inl, inr, refl, sym, ap, ◌∙◌, String, Option, none, some,
  if◌then◌else◌,
}
use clausis.Outcome.{Outcome, ok, raised, adapter_error}
use clausis.Desktop.Attempt.{Attempt, called, observed, ◌and_then◌, commit}

module _ {World : Type 0} where
  -- the step succeeds and leaves the world
  abbrev pub Succeeds : Attempt World → World → World → Type 0
  Succeeds a w w' = a w ≡ (true, w')

  pub and_then-Succeeds :
      (a b : Attempt World) (w w' : World)
      → Succeeds (a and_then b) w w'
      → (between : World) × Succeeds a w between × Succeeds b between w'
  unfolding ◌and_then◌
  and_then-Succeeds a b w w' h = step (a w) refl h
    where
      step :
          (came : Bool × World)
          → a w ≡ came
          → (if came.0 then b (came.1) else (false, came.1)) ≡ (true, w')
          → (between : World) × Succeeds a w between × Succeeds b between w'
      step (true, between) e h = (between, e, h)
      step (false, between) e h = absurd (cc h)

  pub observed-Succeeds :
      (test : World → Bool) (w w' : World)
      → Succeeds (observed test) w w'
      → (w ≡ w') × (test w ≡ true)
  unfolding observed
  observed-Succeeds test w w' h = (ap (λ p. p.1) h, ap (λ p. p.0) h)

  pub called-Succeeds :
      (call : World → Option Bool × World) (w w' : World)
      → Succeeds (called call) w w'
      → call w ≡ (some true, w')
  unfolding called
  called-Succeeds call w w' h = step (call w) h
    where
      step :
          (came : Option Bool × World)
          → ◌≡◌ {A = Bool × World}
              (elim (came.0) [ none ↦ false | some accepted ↦ accepted ], came.1)
              (true, w')
          → came ≡ (some true, w')
      step (none, w) h = absurd (cc h)
      step (some a, w) h = ap (λ p. (some (p.0), p.1)) h

  -- the step fails and leaves the world
  abbrev pub Fails : Attempt World → World → World → Type 0
  Fails a w w' = a w ≡ (false, w')

  pub Fails-Succeeds : (a : Attempt World) {w w' w'' : World} → Fails a w w' → Succeeds a w w'' → ⊥
  Fails-Succeeds a f s = absurd (cc (ap (λ p. p.0) (sym f ∙ s)))

  pub Succeeds-and_then :
      (a b : Attempt World) {w between w' : World}
      → Succeeds a w between
      → Succeeds b between w'
      → Succeeds (a and_then b) w w'
  unfolding ◌and_then◌
  Succeeds-and_then a b first second = rw first second

  pub Succeeds-observed :
      (test : World → Bool) (w : World) → test w ≡ true → Succeeds (observed test) w w
  unfolding observed
  Succeeds-observed test w h = rw h

  pub Succeeds-called :
      (call : World → Option Bool × World) {w w' : World}
      → call w ≡ (some true, w')
      → Succeeds (called call) w w'
  unfolding called
  Succeeds-called call h = rw h

  -- The three ends of a change: it succeeded, or it failed and undoing it succeeded, or both failed.
  abbrev pub Ends :
      Attempt World → Attempt World → String → String → World → Outcome (Unit {0}) × World → Type 0
  Ends change restore not_restored not_confirmed w (r, w') =
      ((r ≡ ok tt) × Succeeds change w w')
      ⊎ ((between : World) × Fails change w between
          × (((r ≡ raised (adapter_error not_confirmed)) × Succeeds restore between w')
              ⊎ ((r ≡ raised (adapter_error not_restored)) × Fails restore between w')))

  pub commit-Ends :
      (change restore : Attempt World) (not_restored not_confirmed : String) (w : World)
      → Ends change restore not_restored not_confirmed w
          (commit change restore not_restored not_confirmed w)
  unfolding commit
  commit-Ends change restore not_restored not_confirmed w = step (change w) refl
    where
      undo :
          (between : World) (came : Bool × World)
          → Fails change w between
          → restore between ≡ came
          → Ends change restore not_restored not_confirmed w
              (raised (adapter_error (if came.0 then not_confirmed else not_restored)), came.1)
      undo between (true, w') f e = inr (between, f, inl (refl, e))
      undo between (false, w') f e = inr (between, f, inr (refl, e))

      step :
          (came : Bool × World)
          → change w ≡ came
          → Ends change restore not_restored not_confirmed w (
              if came.0 then (ok tt, came.1) else (
                raised
                    (adapter_error (if (restore (came.1)).0 then not_confirmed else not_restored)),
                (restore (came.1)).1,
              ))
      step (true, w') e = inl (refl, e)
      step (false, between) e = undo between (restore between) e refl
