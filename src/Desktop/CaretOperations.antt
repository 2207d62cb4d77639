-- ===== src/Desktop/CaretOperations.antt =====
-- The operations of src/clausis/gnome_adapter.py that move the caret, taken together.
use clausis.Prelude.{
  ℕ, Bool, true, false, ◌≡◌, ◌⊎◌, inl, inr, refl, sym, ap, subst, String, Option, if◌then◌else◌,
}
use clausis.Outcome.{Exception, Outcome, ok, raised, ok-injective, ◌>>=◌, >>=-eq-ok}
use clausis.Stdlib.{Stdlib, Text}
use clausis.Text.{codes}
use clausis.Desktop.Provider.{AtSpi}
use clausis.Desktop.Attempt.{holds_caret}
use clausis.Desktop.Change.{Change, run_change}
use clausis.Desktop.Field.{
  told_if, or_refuse, or_refuse_other, text_field, field_name, max_text, count_within, caret_within,
  selections_within, Direction, direction_of, at_edge,
}
use clausis.Desktop.Words.{word_start}
use clausis.Desktop.Lines.{line_context}
use clausis.Desktop.Caret.{
  position_of, boundary_of, target_of, caret_move, metadata_of, word_target, plan_caret_move,
  move_focused_text_caret, plan_word_move, move_focused_text_caret_word, plan_line_caret,
  move_focused_text_caret_line,
}
use clausis.Desktop.Snapshot.{caret_within-holds_caret, or_refuse-ok, or_refuse_other-ok}
use clausis.Desktop.Safe.{IsSafeField, text_field-IsSafeField, line_context-ok}
use clausis.Desktop.Moves.{Moves, caret_move-Moves}
use clausis.Desktop.Aims.{
  CaretOperation, to_position, by_word, to_line_boundary, Aims, position_of-GoesTo,
  direction_of-Directs, boundary_of-target,
}

-- What each operation tells of a move that could not be undone, and of one that was undone.
abbrev pub not_restored_of : CaretOperation → String
not_restored_of (to_position _) =
    "Die fehlgeschlagene Textcursor-Bewegung konnte nicht zurückgesetzt werden."
not_restored_of (by_word _) =
    "Die fehlgeschlagene Wortnavigation konnte nicht zurückgesetzt werden."
not_restored_of (to_line_boundary _) =
    "Die fehlgeschlagene Zeilennavigation konnte nicht zurückgesetzt werden."

abbrev pub not_confirmed_of : CaretOperation → String
not_confirmed_of (to_position _) = "Die Textcursor-Bewegung konnte nicht bestätigt werden."
not_confirmed_of (by_word _) = "Die Wortnavigation konnte nicht bestätigt werden."
not_confirmed_of (to_line_boundary _) = "Die Zeilennavigation konnte nicht bestätigt werden."

-- whether the operation looks for selections once the caret is put
abbrev pub looks : CaretOperation → Bool
looks (to_position _) = false
looks (by_word _) = true
looks (to_line_boundary _) = true

module _ {World : Type 0} ⦃spi : AtSpi World⦄ ⦃py : Stdlib⦄ where
  abbrev pub run_caret : CaretOperation → World → Outcome Text × World
  run_caret (to_position position) = move_focused_text_caret position
  run_caret (by_word direction) = move_focused_text_caret_word direction
  run_caret (to_line_boundary boundary) = move_focused_text_caret_line boundary

  abbrev pub caret_plan_of :
      CaretOperation → World → Outcome (Text × Option (Change World spi.Node))
  caret_plan_of (to_position position) = plan_caret_move position
  caret_plan_of (by_word direction) = plan_word_move direction
  caret_plan_of (to_line_boundary boundary) = plan_line_caret boundary

  run_caret-run_change :
      (o : CaretOperation) (w : World)
      → run_caret o w ≡ run_change (not_restored_of o) (not_confirmed_of o) (caret_plan_of o w) w
  unfolding move_focused_text_caret move_focused_text_caret_word move_focused_text_caret_line
  run_caret-run_change (to_position position) w = refl
  run_caret-run_change (by_word direction) w = refl
  run_caret-run_change (to_line_boundary boundary) w = refl

  -- What an operation comes to: its plan is refused, and nothing is done; or it moves the caret of a
  -- safe field from where it is to where the operation aims.
  abbrev pub CaretEnds : CaretOperation → World → Outcome Text × World → Type 0
  CaretEnds o w came =
      ((x : Exception) × (caret_plan_of o w ≡ raised x) × (came ≡ (raised x, w)))
      ⊎ ((settled fallback : Text) × (n : spi.Node) × (caret target : ℕ) × IsSafeField w n
          × (holds_caret n caret w ≡ true)
          × Aims o w n settled fallback caret target
          × Moves (not_restored_of o) (not_confirmed_of o) (looks o) settled fallback n caret target
              w came)

  -- a plan that moves the caret of a safe field from where it is to where the operation aims
  abbrev IsMove : CaretOperation → World → Text × Option (Change World spi.Node) → Type 0
  IsMove o w plan =
      (settled fallback : Text) × (n : spi.Node) × (caret target : ℕ) × (IsSafeField w n
        × (holds_caret n caret w ≡ true))
      × Aims o w n settled fallback caret target
      × ((settled, caret_move (looks o) n fallback caret target) ≡ plan)

  run_change-CaretEnds :
      (o : CaretOperation) (w : World) (plan : Outcome (Text × Option (Change World spi.Node)))
      → caret_plan_of o w ≡ plan
      → ((made : Text × Option (Change World spi.Node)) → plan ≡ ok made → IsMove o w made)
      → CaretEnds o w (run_change (not_restored_of o) (not_confirmed_of o) plan w)
  unfolding run_change
  run_change-CaretEnds o w (raised x) e moves = inl (x, e, refl)
  run_change-CaretEnds o w (ok made) e moves =
      let (settled, fallback, n, caret, target, (safe, there), aims, same) = moves made refl in
      inr (
        settled,
        fallback,
        n,
        caret,
        target,
        safe,
        there,
        aims,
        subst
            (λ made.
              Moves (not_restored_of o) (not_confirmed_of o) (looks o) settled fallback n caret
                target w (run_change (not_restored_of o) (not_confirmed_of o) (ok made) w))
            same
            (caret_move-Moves (not_restored_of o) (not_confirmed_of o) (looks o) settled fallback n
              caret target w),
      )

  plan_caret_move-IsMove :
      (position : Text) (w : World) (made : Text × Option (Change World spi.Node))
      → plan_caret_move position w ≡ ok made
      → IsMove (to_position position) w made
  unfolding plan_caret_move
  plan_caret_move-IsMove position w made h =
      let (p, named, h) = >>=-eq-ok (position_of position) _ h in
      let (n, field, h) =
        >>=-eq-ok
          (text_field "Das fokussierte Element ist kein Textfeld."
            "Der Textcursor geschützter Textfelder wird nicht verändert." w)
          _ h in
      let ((count, caret), read, h) = >>=-eq-ok (or_refuse _ (metadata_of w n)) _ h in
      let metadata = or_refuse-ok _ (metadata_of w n) read in
      let (_, _, read) = >>=-eq-ok (told_if (spi.has_text w n)) _ metadata in
      let (c, _, read) = >>=-eq-ok (count_within 0 max_text w n) _ read in
      let (k, carets, read) = >>=-eq-ok (caret_within c w n) _ read in
      (
        field_name w n,
        codes "Textfeld",
        n,
        caret,
        target_of p count caret,
        (
          text_field-IsSafeField _ _ w n field,
          subst (λ k. holds_caret n k w ≡ true) (ap (λ p. p.1) (ok-injective read))
              (caret_within-holds_caret c w n k carets),
        ),
        (refl, refl, (count, metadata, position_of-GoesTo position p count caret named)),
        ok-injective h,
      )

  plan_line_caret-IsMove :
      (boundary : Text) (w : World) (made : Text × Option (Change World spi.Node))
      → plan_line_caret boundary w ≡ ok made
      → IsMove (to_line_boundary boundary) w made
  unfolding plan_line_caret
  plan_line_caret-IsMove boundary w made h =
      let (target, bound, h) = >>=-eq-ok (boundary_of boundary) _ h in
      let (line, context, h) = >>=-eq-ok (line_context true w) _ h in
      let (safe, there, _) = line_context-ok w line context in
      (
        line.name,
        line.name,
        line.node,
        line.caret,
        target line,
        (safe, there),
        (line, context, refl, refl, refl, refl, boundary_of-target boundary target line bound),
        ok-injective h,
      )

  plan_word_move-IsMove :
      (direction : Text) (w : World) (made : Text × Option (Change World spi.Node))
      → plan_word_move direction w ≡ ok made
      → IsMove (by_word direction) w made
  unfolding plan_word_move
  plan_word_move-IsMove direction w made h =
      let (d, directed, h) = >>=-eq-ok (direction_of _ direction) _ h in
      let (n, field, h) =
        >>=-eq-ok
          (text_field "Das fokussierte Element ist kein Textfeld."
            "Der Textcursor geschützter Textfelder wird nicht verändert." w)
          _ h in
      let ((caret, target), read, h) = >>=-eq-ok (or_refuse_other _ (word_target d w n)) _ h in
      let found = or_refuse_other-ok _ (word_target d w n) read in
      let (_, _, read) = >>=-eq-ok (told_if (spi.has_text w n)) _ found in
      let (c, _, read) = >>=-eq-ok (count_within 0 max_text w n) _ read in
      let (k, carets, read) = >>=-eq-ok (caret_within c w n) _ read in
      let (z, _, read) = >>=-eq-ok (selections_within 0 0 w n) _ read in
      (
        field_name w n,
        codes "Textfeld",
        n,
        caret,
        target,
        (
          text_field-IsSafeField _ _ w n field,
          subst (λ k. holds_caret n k w ≡ true) (same d n c k caret target (at_edge d c k) read)
              (caret_within-holds_caret c w n k carets),
        ),
        (refl, refl, (d, direction_of-Directs _ direction d directed, found)),
        ok-injective h,
      )
    where
      same :
          (d : Direction) (n : spi.Node) (c k caret target : ℕ) (b : Bool)
          → (if◌then◌else◌ {A = Outcome (ℕ × ℕ)} b
              (ok (k, k))
              (do found ← word_start d w n c k; ok (k, found)))
            ≡ ok (caret, target)
          → k ≡ caret
      same d n c k caret target true h = ap (λ p. p.0) (ok-injective h)
      same d n c k caret target false h =
          let (found, _, h) = >>=-eq-ok (word_start d w n c k) _ h in ap (λ p. p.0) (ok-injective h)

  plan-IsMove :
      (o : CaretOperation) (w : World) (made : Text × Option (Change World spi.Node))
      → caret_plan_of o w ≡ ok made
      → IsMove o w made
  plan-IsMove (to_position position) = plan_caret_move-IsMove position
  plan-IsMove (by_word direction) = plan_word_move-IsMove direction
  plan-IsMove (to_line_boundary boundary) = plan_line_caret-IsMove boundary

  -- An operation whose plan is refused raises what the plan raises and leaves the desktop as it was.
  -- Any other is for the focused text field of the one active window, which holds no secret, and aims
  -- from where the field's caret is: at the start, the end, one character back or forth, at the start
  -- of the word beside the caret in the direction that is asked for, or at the start or the end of its
  -- line. A caret that is there stays and nothing is done. Otherwise the operation returns the field's
  -- name and the caret is at the target; or the provider could not put it there, and the operation
  -- either raises its message for a move that is not confirmed and the caret is where it was, or
  -- raises its message for a move that is not undone, and the provider could not put the caret back.
  pub run_caret-CaretEnds : (o : CaretOperation) (w : World) → CaretEnds o w (run_caret o w)
  run_caret-CaretEnds o w =
      subst (CaretEnds o w) (sym (run_caret-run_change o w))
        (run_change-CaretEnds o w (caret_plan_of o w) refl (plan-IsMove o w))
