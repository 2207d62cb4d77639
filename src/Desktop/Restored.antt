-- ===== src/Desktop/Restored.antt =====
-- What a text field shows after an edit of src/clausis/gnome_adapter.py, and after undoing it.
use clausis.Prelude.{
  ℕ, Bool, true, false, ◌≡◌, ◌⊎◌, inl, inr, ap, ◌∙◌, subst, [], some, if◌then◌else◌,
}
use clausis.Outcome.{Outcome, ok, raised}
use clausis.Stdlib.{Text}
use clausis.Desktop.Provider.{AtSpi}
use clausis.Desktop.Attempt.{
  called, skip, observed, holds_text, holds_caret, holds_selections, remove_selections,
}
use clausis.Desktop.Edit.{Edit, mutate, place_caret, set_contents, is_at, apply_edit, restore_edit}
use clausis.Desktop.Shows.{
  Succeeds, and_then-Succeeds, observed-Succeeds, called-Succeeds, Succeeds-and_then,
  Succeeds-observed, Succeeds-called,
}

-- text.setCaretOffset leaves the text as it is, whatever it answers
abbrev pub CaretKeepsText : {World : Type 0} → AtSpi World → Type 0
CaretKeepsText {World = World} spi =
    (n : spi.Node) (k : ℕ) (t : Text) (w : World)
    → holds_text ⦃spi = spi⦄ n t w ≡ true
    → holds_text ⦃spi = spi⦄ n t ((spi.set_caret_offset n k w).1) ≡ true

pub as_text :
    {a b : Outcome (Unit {0})}
    → a ≡ b
    → ◌≡◌ {A = Outcome Text}
        (elim a [ ok _ ↦ ok [] | raised x ↦ raised x ])
        (elim b [ ok _ ↦ ok [] | raised x ↦ raised x ])
as_text h = ap (λ o. elim o [ ok _ ↦ ok [] | raised x ↦ raised x ]) h

module _ {World : Type 0} ⦃spi : AtSpi World⦄ where
  -- the field reads back this text and this caret, without a selection
  abbrev pub Shows : spi.Node → Text → ℕ → World → Type 0
  Shows n t k w =
      (holds_text n t w ≡ true) × (holds_caret n k w ≡ true) × (holds_selections n 0 w ≡ true)

  pub is_at-Shows :
      (n : spi.Node) (t : Text) (k : ℕ) (w w' : World)
      → Succeeds (is_at n t k) w w'
      → Shows n t k w'
  is_at-Shows n t k w w' h =
      let (w1, a, h) = and_then-Succeeds (observed (holds_text n t)) _ w w' h in
      let (w2, b, h) = and_then-Succeeds (observed (holds_caret n k)) _ w1 w' h in
      let (e1, has_text) = observed-Succeeds _ _ _ a in
      let (e2, has_caret) = observed-Succeeds _ _ _ b in
      let (e3, none_selected) = observed-Succeeds (holds_selections n 0) _ _ h in
      (
        subst (λ w. holds_text n t w ≡ true) (e1 ∙ (e2 ∙ e3)) has_text,
        subst (λ w. holds_caret n k w ≡ true) (e2 ∙ e3) has_caret,
        subst (λ w. holds_selections n 0 w ≡ true) e3 none_selected,
      )

  pub apply_edit-Shows :
      (e : Edit spi.Node) (w w' : World)
      → Succeeds (apply_edit e) w w'
      → Shows e.node e.expected e.expected_caret w'
  unfolding apply_edit
  apply_edit-Shows e w w' h =
      let (w1, _, h) = and_then-Succeeds (called (mutate e.node e.mutation)) _ w w' h in
      let (w2, _, h) = and_then-Succeeds _ (is_at e.node e.expected e.expected_caret) w1 w' h in
      is_at-Shows e.node e.expected e.expected_caret w2 w' h

  pub restore_edit-Shows :
      (e : Edit spi.Node) (w w' : World)
      → CaretKeepsText spi
      → Succeeds (restore_edit e) w w'
      → Shows e.node e.previous e.caret w'
  unfolding restore_edit
  restore_edit-Shows e w w' keeps h =
      let (w1, _, h) = and_then-Succeeds (set_contents e.node e.previous) _ w w' h in
      let (w2, _, h) =
        and_then-Succeeds (if e.drops_selections then remove_selections e.node else skip) _ w1 w'
          h in
      let (w3, a, h) = and_then-Succeeds (observed (holds_text e.node e.previous)) _ w2 w' h in
      let (w4, p, h) = and_then-Succeeds (place_caret e.node e.caret) _ w3 w' h in
      let (w5, b, h) = and_then-Succeeds (observed (holds_caret e.node e.caret)) _ w4 w' h in
      let (e1, has_text) = observed-Succeeds _ _ _ a in
      let (e2, has_caret) = observed-Succeeds _ _ _ b in
      let (e3, none_selected) = observed-Succeeds (holds_selections e.node 0) _ _ h in
      let placed = called-Succeeds (spi.set_caret_offset e.node e.caret) _ _ p in
      let kept =
        keeps e.node e.caret e.previous w3
          (subst (λ w. holds_text e.node e.previous w ≡ true) e1 has_text) in
      (
        subst (λ w. holds_text e.node e.previous w ≡ true) (ap (λ p. p.1) placed ∙ (e2 ∙ e3)) kept,
        subst (λ w. holds_caret e.node e.caret w ≡ true) (e2 ∙ e3) has_caret,
        subst (λ w. holds_selections e.node 0 w ≡ true) e3 none_selected,
      )

  -- The provider carries an edit out from here: it accepts the change and, where the caret is put in
  -- its place, the caret; then the field shows the expected text and caret without a selection.
  pub record CanApply (e : Edit spi.Node) (w : World) : Type 0 where
    pub changed : World
    pub placed : World
    pub change_accepted : mutate e.node e.mutation w ≡ (some true, changed)
    pub caret_accepted :
        (e.places_caret ≡ true)
          × (spi.set_caret_offset e.node e.expected_caret changed ≡ (some true, placed))
        ⊎ ((e.places_caret ≡ false) × (changed ≡ placed))
    pub shown : Shows e.node e.expected e.expected_caret placed

  -- The provider can undo an edit from here: it accepts the earlier text and gives up the selections
  -- where these are dropped, the field holds that text, it accepts the earlier caret, and the field
  -- has that caret and no selection.
  pub record CanRestore (e : Edit spi.Node) (w : World) : Type 0 where
    pub written : World
    pub unselected : World
    pub placed : World
    pub text_accepted : spi.set_text_contents e.node e.previous w ≡ (some true, written)
    pub selections_dropped :
        (e.drops_selections ≡ true) × Succeeds (remove_selections e.node) written unselected
        ⊎ ((e.drops_selections ≡ false) × (written ≡ unselected))
    pub text_there : holds_text e.node e.previous unselected ≡ true
    pub caret_accepted : spi.set_caret_offset e.node e.caret unselected ≡ (some true, placed)
    pub caret_there : holds_caret e.node e.caret placed ≡ true
    pub none_selected : holds_selections e.node 0 placed ≡ true

  Succeeds-if :
      (b : Bool) (a : World → Bool × World) {w w' : World}
      → ((b ≡ true) × Succeeds a w w') ⊎ ((b ≡ false) × (w ≡ w'))
      → Succeeds (if b then a else skip) w w'
  unfolding skip
  Succeeds-if b a (inl (yes_taken, h)) = rw yes_taken h
  Succeeds-if b a (inr (not_taken, h)) = rw (not_taken, h)

  pub CanApply-Succeeds :
      (e : Edit spi.Node) (w : World) → (c : CanApply e w) → Succeeds (apply_edit e) w c.placed
  unfolding apply_edit
  CanApply-Succeeds e w c =
      Succeeds-and_then (called (mutate e.node e.mutation)) _
        (Succeeds-called (mutate e.node e.mutation) c.change_accepted)
        (Succeeds-and_then (if e.places_caret then place_caret e.node e.expected_caret else skip) _
          (Succeeds-if e.places_caret (place_caret e.node e.expected_caret)
            (accepted c.caret_accepted))
          (let (text, caret, selections) = c.shown in
            Succeeds-and_then (observed (holds_text e.node e.expected)) _
              (Succeeds-observed (holds_text e.node e.expected) c.placed text)
              (Succeeds-and_then (observed (holds_caret e.node e.expected_caret)) _
                (Succeeds-observed (holds_caret e.node e.expected_caret) c.placed caret)
                (Succeeds-observed (holds_selections e.node 0) c.placed selections))))
    where
      accepted :
          ((e.places_caret ≡ true)
              × (spi.set_caret_offset e.node e.expected_caret c.changed ≡ (some true, c.placed)))
            ⊎ ((e.places_caret ≡ false) × (c.changed ≡ c.placed))
          → ((e.places_caret ≡ true)
              × Succeeds (place_caret e.node e.expected_caret) c.changed c.placed)
            ⊎ ((e.places_caret ≡ false) × (c.changed ≡ c.placed))
      accepted (inl (b, h)) =
          inl (b, Succeeds-called (spi.set_caret_offset e.node e.expected_caret) h)
      accepted (inr h) = inr h

  pub CanRestore-Succeeds :
      (e : Edit spi.Node) (w : World) → (c : CanRestore e w) → Succeeds (restore_edit e) w c.placed
  unfolding restore_edit
  CanRestore-Succeeds e w c =
      Succeeds-and_then (set_contents e.node e.previous) _
        (Succeeds-called (spi.set_text_contents e.node e.previous) c.text_accepted)
        (Succeeds-and_then (if e.drops_selections then remove_selections e.node else skip) _
          (Succeeds-if e.drops_selections (remove_selections e.node) c.selections_dropped)
          (Succeeds-and_then (observed (holds_text e.node e.previous)) _
            (Succeeds-observed (holds_text e.node e.previous) c.unselected c.text_there)
            (Succeeds-and_then (place_caret e.node e.caret) _
              (Succeeds-called (spi.set_caret_offset e.node e.caret) c.caret_accepted)
              (Succeeds-and_then (observed (holds_caret e.node e.caret)) _
                (Succeeds-observed (holds_caret e.node e.caret) c.placed c.caret_there)
                (Succeeds-observed (holds_selections e.node 0) c.placed c.none_selected)))))
