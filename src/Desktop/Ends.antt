-- ===== src/Desktop/Ends.antt =====
-- What a planned edit of src/clausis/gnome_adapter.py comes to.
use clausis.Prelude.{◌≡◌, ◌⊎◌, inl, inr, refl, String, Option, none, some}
use clausis.Outcome.{Exception, Outcome, ok, raised, adapter_error}
use clausis.Stdlib.{Stdlib, Text}
use clausis.Desktop.Provider.{AtSpi}
use clausis.Desktop.Tree.{name, or_text}
use clausis.Desktop.Attempt.{commit}
use clausis.Desktop.Change.{run_change, reported}
use clausis.Desktop.Edit.{Edit, apply_edit, restore_edit, run_edit}
use clausis.Desktop.Shows.{Fails, Fails-Succeeds, Ends, commit-Ends}
use clausis.Desktop.Restored.{
  CaretKeepsText, as_text, Shows, CanApply, CanRestore, apply_edit-Shows, restore_edit-Shows,
  CanApply-Succeeds, CanRestore-Succeeds,
}

module _ {World : Type 0} ⦃spi : AtSpi World⦄ where
  module _ ⦃py : Stdlib⦄ where
    -- The ends of a planned edit: it is there; or the provider could not carry it out, and the field
    -- shows the earlier text and caret again, or from where that left the desktop the provider cannot
    -- undo it.
    abbrev pub EditEnds : String → String → Edit spi.Node → World → Outcome Text × World → Type 0
    EditEnds not_restored not_confirmed e w (r, w') =
        ((r ≡ ok (or_text (name w' e.node) e.fallback))
          × Shows e.node e.expected e.expected_caret w')
        ⊎ ((between : World) × (¬ CanApply e w)
            × Fails (apply_edit e) w between
            × (((r ≡ raised (adapter_error not_confirmed)) × Shows e.node e.previous e.caret w')
                ⊎ ((r ≡ raised (adapter_error not_restored)) × (¬ CanRestore e between))))

    -- What a plan comes to: it is refused or finds nothing to do, and nothing is written; or an edit
    -- was planned and came to one of its ends.
    abbrev pub PlanEnds :
        String
        → String
        → Outcome (Text × Option (Edit spi.Node))
        → World
        → Outcome Text × World
        → Type 0
    PlanEnds not_restored not_confirmed plan w came =
        ((x : Exception) × (plan ≡ raised x) × (came ≡ (raised x, w)))
        ⊎ (((settled : Text) × (plan ≡ ok (settled, none)) × (came ≡ (ok settled, w)))
            ⊎ ((settled : Text) × (e : Edit spi.Node) × (plan ≡ ok (settled, some e))
                × EditEnds not_restored not_confirmed e w came))

    pub run_edit-PlanEnds :
        (not_restored not_confirmed : String) (plan : Outcome (Text × Option (Edit spi.Node)))
        (w : World)
        → CaretKeepsText spi
        → PlanEnds not_restored not_confirmed plan w (run_edit not_restored not_confirmed plan w)
    unfolding run_edit run_change
    run_edit-PlanEnds not_restored not_confirmed (raised x) w keeps = inl (x, refl, refl)
    run_edit-PlanEnds not_restored not_confirmed (ok (settled, none)) w keeps =
        inr (inl (settled, refl, refl))
    run_edit-PlanEnds not_restored not_confirmed (ok (settled, some e)) w keeps = inr (
        inr (
          settled,
          e,
          refl,
          step (commit (apply_edit e) (restore_edit e) not_restored not_confirmed w)
              (commit-Ends (apply_edit e) (restore_edit e) not_restored not_confirmed w),
        ))
      where
        step :
            (came : Outcome (Unit {0}) × World)
            → Ends (apply_edit e) (restore_edit e) not_restored not_confirmed w came
            → EditEnds not_restored not_confirmed e w (reported e.node e.fallback came)
        step (ok _, w') (inl (_, done)) = inl (refl, apply_edit-Shows e w w' done)
        step (ok _, w') (inr (_, _, inl (h, _))) = absurd (cc h)
        step (ok _, w') (inr (_, _, inr (h, _))) = absurd (cc h)
        step (raised x, w') (inl (h, _)) = absurd (cc h)
        step (raised x, w') (inr (between, failed, inl (h, undone))) = inr (
          between,
          λ c. Fails-Succeeds (apply_edit e) failed (CanApply-Succeeds e w c),
          failed,
          inl (as_text h, restore_edit-Shows e between w' keeps undone),
        )
        step (raised x, w') (inr (between, failed, inr (h, stuck))) = inr (
          between,
          λ c. Fails-Succeeds (apply_edit e) failed (CanApply-Succeeds e w c),
          failed,
          inr (
            as_text h,
            λ c. Fails-Succeeds (restore_edit e) stuck (CanRestore-Succeeds e between c),
          ),
        )
