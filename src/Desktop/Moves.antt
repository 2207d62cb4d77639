-- ===== src/Desktop/Moves.antt =====
-- What becomes of the caret when src/clausis/gnome_adapter.py moves it.
use clausis.Prelude.{
  ℕ, Bool, true, false, ◌≡◌, ◌⊎◌, inl, inr, refl, ap, ◌∙◌, subst, String, none, some, if◌then◌else◌,
  ◌==◌, ==_iff, ◌≢◌,
}
use clausis.Outcome.{Outcome, ok, raised, adapter_error}
use clausis.Stdlib.{Stdlib, Text}
use clausis.Desktop.Provider.{AtSpi}
use clausis.Desktop.Tree.{name, or_text}
use clausis.Desktop.Attempt.{observed, holds_caret, holds_selections, skip, commit}
use clausis.Desktop.Change.{Change, run_change, reported}
use clausis.Desktop.Edit.{place_caret}
use clausis.Desktop.Caret.{no_selection, caret_at, caret_move}
use clausis.Desktop.Shows.{
  Succeeds, and_then-Succeeds, observed-Succeeds, Fails, Fails-Succeeds, Succeeds-and_then,
  Succeeds-observed, Succeeds-called, Ends, commit-Ends,
}
use clausis.Desktop.Restored.{as_text}

module _ {World : Type 0} ⦃spi : AtSpi World⦄ where
  no_selection-same :
      (looked : Bool) (n : spi.Node) (w w' : World) → Succeeds (no_selection looked n) w w' → w ≡ w'
  unfolding skip
  no_selection-same true n w w' h =
      let (same, _) = observed-Succeeds (holds_selections n 0) w w' h in same
  no_selection-same false n w w' h = ap (λ p. p.1) h

  caret_at-holds_caret :
      (looked : Bool) (n : spi.Node) (k : ℕ) (w w' : World)
      → Succeeds (caret_at looked n k) w w'
      → holds_caret n k w' ≡ true
  unfolding caret_at
  caret_at-holds_caret looked n k w w' h =
      let (w1, _, h) = and_then-Succeeds (place_caret n k) _ w w' h in
      let (w2, seen, h) = and_then-Succeeds (observed (holds_caret n k)) _ w1 w' h in
      let (same, there) = observed-Succeeds _ _ _ seen in
      subst (λ w. holds_caret n k w ≡ true) (same ∙ no_selection-same looked n w2 w' h) there

  -- The provider puts the caret of a field at a place: it accepts the caret, and the field then has it
  -- there, without a selection where these are looked at.
  pub record CanMove (looked : Bool) (n : spi.Node) (k : ℕ) (w : World) : Type 0 where
    pub placed : World
    pub accepted : spi.set_caret_offset n k w ≡ (some true, placed)
    pub there : holds_caret n k placed ≡ true
    pub unselected : looked ≡ true → holds_selections n 0 placed ≡ true

  no_selection-Succeeds :
      (looked : Bool) (n : spi.Node) (w : World)
      → (looked ≡ true → holds_selections n 0 w ≡ true)
      → Succeeds (no_selection looked n) w w
  unfolding skip
  no_selection-Succeeds true n w h = Succeeds-observed (holds_selections n 0) w (h refl)
  no_selection-Succeeds false n w h = refl

  CanMove-Succeeds :
      (looked : Bool) (n : spi.Node) (k : ℕ) (w : World)
      → (c : CanMove looked n k w) → Succeeds (caret_at looked n k) w c.placed
  unfolding caret_at
  CanMove-Succeeds looked n k w c =
      Succeeds-and_then (place_caret n k) _ (Succeeds-called (spi.set_caret_offset n k) c.accepted)
        (Succeeds-and_then (observed (holds_caret n k)) _
          (Succeeds-observed (holds_caret n k) c.placed c.there)
          (no_selection-Succeeds looked n c.placed c.unselected))

  Fails-CanMove :
      (looked : Bool) (n : spi.Node) (k : ℕ) (w w' : World)
      → Fails (caret_at looked n k) w w'
      → ¬ CanMove looked n k w
  Fails-CanMove looked n k w w' f c =
      Fails-Succeeds (caret_at looked n k) f (CanMove-Succeeds looked n k w c)

  module _ ⦃py : Stdlib⦄ where
    -- The ends of a move of the caret of a field from one place to another: it is there; or the
    -- provider could not put it there, and it is where it was, or from where that left the desktop the
    -- provider cannot put it back.
    abbrev pub MoveEnds :
        String → String → Bool → spi.Node → Text → ℕ → ℕ → World → Outcome Text × World → Type 0
    MoveEnds not_restored not_confirmed looked n fallback caret target w (r, w') =
        ((r ≡ ok (or_text (name w' n) fallback)) × (holds_caret n target w' ≡ true))
        ⊎ ((between : World) × (¬ CanMove looked n target w)
            × Fails (caret_at looked n target) w between
            × (((r ≡ raised (adapter_error not_confirmed)) × (holds_caret n caret w' ≡ true))
                ⊎ ((r ≡ raised (adapter_error not_restored)) × (¬ CanMove looked n caret between))))

    -- What a move of the caret comes to: it is there already, and nothing is done; or the move came
    -- to one of its ends.
    abbrev pub Moves :
        String
        → String
        → Bool
        → Text
        → Text
        → spi.Node
        → ℕ
        → ℕ
        → World
        → Outcome Text × World
        → Type 0
    Moves not_restored not_confirmed looked settled fallback n caret target w came =
        ((caret ≡ target) × (came ≡ (ok settled, w)))
        ⊎ ((caret ≢ target)
            × MoveEnds not_restored not_confirmed looked n fallback caret target w came)

    pub caret_move-Moves :
        (not_restored not_confirmed : String) (looked : Bool) (settled fallback : Text)
        (n : spi.Node) (caret target : ℕ) (w : World)
        → Moves not_restored not_confirmed looked settled fallback n caret target w (
            run_change not_restored not_confirmed
              (ok (settled, caret_move looked n fallback caret target))
              w)
    unfolding caret_move run_change
    caret_move-Moves not_restored not_confirmed looked settled fallback n caret target w =
        by_place (caret == target) refl
      where
        step :
            (came : Outcome (Unit {0}) × World)
            → Ends
                (caret_at looked n target)
                (caret_at looked n caret)
                not_restored
                not_confirmed
                w
                came
            → MoveEnds not_restored not_confirmed looked n fallback caret target w
                (reported n fallback came)
        step (ok _, w') (inl (_, done)) = inl (refl, caret_at-holds_caret looked n target w w' done)
        step (ok _, w') (inr (_, _, inl (h, _))) = absurd (cc h)
        step (ok _, w') (inr (_, _, inr (h, _))) = absurd (cc h)
        step (raised x, w') (inl (h, _)) = absurd (cc h)
        step (raised x, w') (inr (between, failed, inl (h, undone))) = inr (
          between,
          Fails-CanMove looked n target w between failed,
          failed,
          inl (as_text h, caret_at-holds_caret looked n caret between w' undone),
        )
        step (raised x, w') (inr (between, failed, inr (h, stuck))) = inr (
          between,
          Fails-CanMove looked n target w between failed,
          failed,
          inr (as_text h, Fails-CanMove looked n caret between w' stuck),
        )

        change : Change World spi.Node
        change = record {
          node = n;
          fallback = fallback;
          change = caret_at looked n target;
          restore = caret_at looked n caret;
        }

        by_place :
            (b : Bool)
            → (caret == target) ≡ b
            → Moves not_restored not_confirmed looked settled fallback n caret target w (
                run_change not_restored not_confirmed
                  (ok (settled, if b then none else some change))
                  w)
        by_place true e = inl ((==_iff caret target).0 e, refl)
        by_place false e = inr (
          λ same. absurd (cc ((==_iff caret target).1 same, e)),
          step
              (commit (caret_at looked n target) (caret_at looked n caret) not_restored
                not_confirmed w)
              (commit-Ends (caret_at looked n target) (caret_at looked n caret) not_restored
                not_confirmed w),
        )
