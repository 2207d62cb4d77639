-- ===== src/Tests/DesktopRuns.antt =====
-- Runs of the theorems on the text field of src/clausis/gnome_adapter.py, and of its operations.
use clausis.Prelude.{
  ℕ, zero, suc, ◌≤◌, ◌<◌, arith, leb, Bool, if◌then◌else◌, ◌≡◌, ◌⊎◌, refl, String, true, false, [],
  ◌∷◌, ◌++◌, Option, some, length,
}
use clausis.Outcome.{ok}
use clausis.Text.{codes}
use clausis.Desktop.Attempt.{holds_text}
use clausis.Desktop.Field.{forward, backward, has_nul}
use clausis.Desktop.Lines.{LineContext}
use clausis.Desktop.Words.{character_at, word_span}
use clausis.Desktop.Edit.{Edit, insertion, deletion}
use clausis.Desktop.LineEdits.{line_edit}
use clausis.Desktop.Reading.{focused_text_for_clipboard}
use clausis.Desktop.LineMoves.{
  last_line_from, line_split, line_join, line_indentation, indent, outdent, four_spaces,
}
use clausis.Desktop.Operations.{
  delete_word, move_line, join_line, not_restored_of, not_confirmed_of, plan_of, run_operation,
  run_operation-IsAtomic,
}
use clausis.Desktop.Restored.{CaretKeepsText}
use clausis.Desktop.Ends.{EditEnds}
use clausis.Desktop.Safe.{StartsFrom, IsSafeField}
use clausis.Desktop.WordBounds.{IsReadable, SpanLies, word_span-ends}
use clausis.Desktop.Inverse.{line_split-line_join, line_indentation_inverse}
use clausis.Desktop.Copy.{focused_text_for_clipboard-IsSafeField}
use clausis.Tests.Fixtures.{ascii, louder}
use clausis.Outcome.{Exception, Outcome, raised, os_error}
use clausis.Stdlib.{Text}
use clausis.Prelude.{List, elem, none, some}
use clausis.Models.Request.{ActionRequest, low}
use clausis.Policy.Rule.{ActionPolicy}
use clausis.Broker.Executor.{Executor, Argv, Completed}
use clausis.Desktop.Session.{semantic_read_only, session_execute}
use clausis.Desktop.DryRun.{dry_session, session_execute-dry}
use clausis.Desktop.Aims.{by_word}
use clausis.Desktop.CaretOperations.{CaretEnds, run_caret, run_caret-CaretEnds}
use clausis.Tests.Editor.{Screen, screen, editor}

abbrev note : Screen
note = screen (codes "ab cd") 5 []

abbrev lines : Screen
lines = screen (codes "ab" ++ (10 ∷ codes "cd")) 4 []

word_deleted :
    run_operation (delete_word (codes "previous")) note
    ≡ (ok (codes "note"), screen (codes "ab ") 3 [])
unfolding clausis.Desktop.Tree.children clausis.Desktop.Tree.walk_from clausis.Desktop.Tree.walk
    clausis.Desktop.Tree.find_state clausis.Desktop.Tree.role clausis.Desktop.Tree.active_window
    clausis.Desktop.Tree.name clausis.Desktop.Attempt.called clausis.Desktop.Attempt.skip
    clausis.Desktop.Attempt.observed clausis.Desktop.Attempt.◌and_then◌
    clausis.Desktop.Attempt.commit clausis.Desktop.Attempt.ran clausis.Desktop.Attempt.holds_text
    clausis.Desktop.Attempt.holds_caret clausis.Desktop.Attempt.holds_selections
    clausis.Desktop.Attempt.holds_spans clausis.Desktop.Attempt.remove_selections
    clausis.Desktop.Attempt.add_selections clausis.Desktop.Change.run_change
    clausis.Desktop.Edit.apply_edit clausis.Desktop.Edit.restore_edit clausis.Desktop.Edit.run_edit
    clausis.Desktop.Field.contains clausis.Desktop.Field.is_secret clausis.Desktop.Field.snapshot
    clausis.Desktop.Field.span_within clausis.Desktop.Field.text_field clausis.Text.starts_with
    clausis.Text.text_eq clausis.Text.pieces clausis.Text.nonempty clausis.Text.runs
    clausis.Text.join_with clausis.Text.normalize_spaces clausis.Text.casefold
    clausis.Desktop.Words.back_while clausis.Desktop.Words.forth_while
    clausis.Desktop.Words.word_span clausis.Desktop.TextEdits.plan_word_deletion
    clausis.Desktop.TextEdits.delete_focused_text_word
    clausis.Desktop.TextEdits.replace_focused_text_word
word_deleted = refl

line_moved :
    run_operation (move_line (codes "up")) lines
    ≡ (ok (codes "note"), screen (codes "cd" ++ (10 ∷ codes "ab")) 1 [])
unfolding clausis.Desktop.Tree.children clausis.Desktop.Tree.walk_from clausis.Desktop.Tree.walk
    clausis.Desktop.Tree.find_state clausis.Desktop.Tree.role clausis.Desktop.Tree.active_window
    clausis.Desktop.Tree.name clausis.Desktop.Attempt.called clausis.Desktop.Attempt.skip
    clausis.Desktop.Attempt.observed clausis.Desktop.Attempt.◌and_then◌
    clausis.Desktop.Attempt.commit clausis.Desktop.Attempt.ran clausis.Desktop.Attempt.holds_text
    clausis.Desktop.Attempt.holds_caret clausis.Desktop.Attempt.holds_selections
    clausis.Desktop.Attempt.holds_spans clausis.Desktop.Attempt.remove_selections
    clausis.Desktop.Attempt.add_selections clausis.Desktop.Change.run_change
    clausis.Desktop.Edit.apply_edit clausis.Desktop.Edit.restore_edit clausis.Desktop.Edit.run_edit
    clausis.Desktop.Field.contains clausis.Desktop.Field.is_secret clausis.Desktop.Field.snapshot
    clausis.Desktop.Field.span_within clausis.Desktop.Field.text_field clausis.Text.starts_with
    clausis.Text.text_eq clausis.Text.pieces clausis.Text.nonempty clausis.Text.runs
    clausis.Text.join_with clausis.Text.normalize_spaces clausis.Text.casefold
    clausis.Desktop.Lines.left_of clausis.Desktop.Lines.right_of clausis.Desktop.Lines.line_of
    clausis.Desktop.Lines.line_context clausis.Desktop.Lines.focused_text_line_at_caret
    clausis.Desktop.LineMoves.first_line clausis.Desktop.LineMoves.last_line_from
    clausis.Desktop.LineMoves.line_move clausis.Desktop.LineMoves.plan_line_move
    clausis.Desktop.LineMoves.move_focused_text_line
line_moved = refl

lines_joined :
    run_operation (join_line (codes "previous")) lines
    ≡ (ok (codes "note"), screen (codes "abcd") 3 [])
unfolding clausis.Desktop.Tree.children clausis.Desktop.Tree.walk_from clausis.Desktop.Tree.walk
    clausis.Desktop.Tree.find_state clausis.Desktop.Tree.role clausis.Desktop.Tree.active_window
    clausis.Desktop.Tree.name clausis.Desktop.Attempt.called clausis.Desktop.Attempt.skip
    clausis.Desktop.Attempt.observed clausis.Desktop.Attempt.◌and_then◌
    clausis.Desktop.Attempt.commit clausis.Desktop.Attempt.ran clausis.Desktop.Attempt.holds_text
    clausis.Desktop.Attempt.holds_caret clausis.Desktop.Attempt.holds_selections
    clausis.Desktop.Attempt.holds_spans clausis.Desktop.Attempt.remove_selections
    clausis.Desktop.Attempt.add_selections clausis.Desktop.Change.run_change
    clausis.Desktop.Edit.apply_edit clausis.Desktop.Edit.restore_edit clausis.Desktop.Edit.run_edit
    clausis.Desktop.Field.contains clausis.Desktop.Field.is_secret clausis.Desktop.Field.snapshot
    clausis.Desktop.Field.span_within clausis.Desktop.Field.text_field clausis.Text.starts_with
    clausis.Text.text_eq clausis.Text.pieces clausis.Text.nonempty clausis.Text.runs
    clausis.Text.join_with clausis.Text.normalize_spaces clausis.Text.casefold
    clausis.Desktop.Lines.left_of clausis.Desktop.Lines.right_of clausis.Desktop.Lines.line_of
    clausis.Desktop.Lines.line_context clausis.Desktop.Lines.focused_text_line_at_caret
    clausis.Desktop.LineMoves.last_line_from clausis.Desktop.LineMoves.line_join
    clausis.Desktop.LineMoves.plan_line_join clausis.Desktop.LineMoves.join_focused_text_line
lines_joined = refl

editor-CaretKeepsText : CaretKeepsText editor
unfolding holds_text
editor-CaretKeepsText n k t w h = step (leb k (length w.content))
  where
    step :
        (b : Bool)
        → holds_text n t (
            (if◌then◌else◌ {A = Option Bool × Screen} b
              (some true, screen w.content k w.spans)
              (some false, w)).1)
          ≡ true
    step true = h
    step false = h

run_operation-IsAtomic_example :
    let o = delete_word (codes "previous") in
    ((x : Exception) × (plan_of o note ≡ raised x) × (run_operation o note ≡ (raised x, note)))
    ⊎ (((settled : Text) × (plan_of o note ≡ ok (settled, none))
          × (run_operation o note ≡ (ok settled, note)))
        ⊎ ((settled : Text) × (e : Edit ℕ) × (plan_of o note ≡ ok (settled, some e))
            × StartsFrom note e
            × EditEnds (not_restored_of o) (not_confirmed_of o) e note (run_operation o note)))
run_operation-IsAtomic_example =
    run_operation-IsAtomic (delete_word (codes "previous")) note editor-CaretKeepsText

readable : IsReadable note 3 5
readable zero h = (b'a', refl)
readable (suc zero) h = (b'b', refl)
readable (suc (suc zero)) h = (32, refl)
readable (suc (suc (suc zero))) h = (b'c', refl)
readable (suc (suc (suc (suc zero)))) h = (b'd', refl)
readable (suc (suc (suc (suc (suc i))))) h = absurd (too_far i h)
  where
    too_far : (i : ℕ) → suc (suc (suc (suc (suc i)))) < 5 → ⊥
    too_far i h = omega arith

word_span-ends_example :
    (o : Option (ℕ × ℕ)) × (word_span backward note 3 5 5 ≡ ok o) × SpanLies backward 5 5 o
word_span-ends_example =
    word_span-ends backward note 3 5 5 readable (omega arith) (omega arith) refl

abbrev whole_line : LineContext ℕ
whole_line = record {
  node = 3;
  name = codes "note";
  value = codes "abcd";
  start = 0;
  end = 4;
  caret = 2;
}

abbrev second_line : LineContext ℕ
second_line = record whole_line { value = codes "cd"; start = 3; end = 5; caret = 3 }

abbrev split_edit : Edit ℕ
split_edit =
    line_edit whole_line (insertion 2 (10 ∷ [])) (codes "abcd") (codes "ab" ++ (10 ∷ codes "cd")) 3

abbrev join_edit : Edit ℕ
join_edit = line_edit second_line (deletion 2 3) (codes "ab" ++ (10 ∷ codes "cd")) (codes "abcd") 2

line_splits : line_split whole_line 4 (codes "abcd") ≡ ok split_edit
unfolding line_split
line_splits = refl

line_joins : line_join second_line backward 5 (codes "ab" ++ (10 ∷ codes "cd")) ≡ ok join_edit
unfolding line_join last_line_from
line_joins = refl

line_split-line_join_example :
    (join_edit.expected ≡ codes "abcd") × (join_edit.expected_caret ≡ whole_line.caret)
line_split-line_join_example =
    line_split-line_join whole_line second_line 4 5 (codes "abcd") split_edit join_edit
      (omega arith) line_splits refl refl line_joins

abbrev indented_line : LineContext ℕ
indented_line = record whole_line { value = four_spaces ++ codes "abcd"; end = 8; caret = 6 }

abbrev indent_edit : Edit ℕ
indent_edit =
    line_edit whole_line (insertion 0 four_spaces) (codes "abcd") (four_spaces ++ codes "abcd") 6

line_indents : line_indentation whole_line indent 4 (codes "abcd") ≡ ok indent_edit
unfolding line_indentation
line_indents = refl

line_indentation_inverse_example :
    (outdented : Edit ℕ) × (line_indentation indented_line outdent 8 indent_edit.expected
      ≡ ok outdented)
    × (outdented.expected ≡ codes "abcd")
    × (outdented.expected_caret ≡ whole_line.caret)
line_indentation_inverse_example =
    line_indentation_inverse whole_line indented_line 4 8 (codes "abcd") indent_edit (omega arith)
      (omega arith) line_indents refl refl refl

note_copied : focused_text_for_clipboard note ≡ ok (codes "note", codes "ab cd")
unfolding focused_text_for_clipboard clausis.Desktop.Tree.children clausis.Desktop.Tree.walk_from
    clausis.Desktop.Tree.walk clausis.Desktop.Tree.find_state clausis.Desktop.Tree.role
    clausis.Desktop.Tree.active_window clausis.Desktop.Tree.name clausis.Desktop.Field.contains
    clausis.Desktop.Field.is_secret clausis.Desktop.Field.snapshot clausis.Desktop.Field.span_within
    clausis.Desktop.Field.text_field clausis.Text.starts_with clausis.Text.text_eq
    clausis.Text.pieces clausis.Text.nonempty clausis.Text.runs clausis.Text.join_with
    clausis.Text.normalize_spaces clausis.Text.casefold
note_copied = refl

focused_text_for_clipboard-IsSafeField_example :
    (n : ℕ) × IsSafeField note n
    × (holds_text n (codes "ab cd") note ≡ true)
    × (1 ≤ length (codes "ab cd"))
    × (length (codes "ab cd") ≤ 100000)
    × (has_nul (codes "ab cd") ≡ false)
focused_text_for_clipboard-IsSafeField_example =
    focused_text_for_clipboard-IsSafeField note (codes "note") (codes "ab cd") note_copied

abbrev overview_policy : ActionPolicy
overview_policy = record {
  minimum_risk = low;
  reversible = true;
  command = none;
  validator = none;
  privileged = false;
}

abbrev no_process : List (String × String) → Argv → Screen → Outcome Completed × Screen
no_process environ argv s = (raised (os_error "no process"), s)

abbrev erasing : Executor Screen
erasing = record { execute = λ r p s. (raised (os_error "not reached"), screen [] 0 []) }

abbrev deleting : ActionRequest
deleting = record louder { action = "desktop.text.delete_selection" }

session_execute-dry_example :
    ((session_execute (dry_session no_process [] erasing) deleting overview_policy note).1 ≡ note)
    ⊎ ((elem deleting.action semantic_read_only ≡ true)
        × (session_execute (dry_session no_process [] erasing) deleting overview_policy note
            ≡ Executor.execute erasing deleting overview_policy note))
session_execute-dry_example =
    session_execute-dry no_process [] erasing deleting overview_policy note

run_caret-CaretEnds_example :
    CaretEnds (by_word (codes "previous")) note (run_caret (by_word (codes "previous")) note)
run_caret-CaretEnds_example = run_caret-CaretEnds (by_word (codes "previous")) note

caret_moved :
    run_caret (by_word (codes "previous")) note ≡ (ok (codes "note"), screen (codes "ab cd") 3 [])
unfolding clausis.Desktop.Caret.move_focused_text_caret_word clausis.Desktop.Caret.plan_word_move
    clausis.Desktop.Caret.caret_move clausis.Desktop.Caret.caret_at clausis.Desktop.Tree.children
    clausis.Desktop.Tree.walk_from clausis.Desktop.Tree.walk clausis.Desktop.Tree.find_state
    clausis.Desktop.Tree.role clausis.Desktop.Tree.active_window clausis.Desktop.Tree.name
    clausis.Desktop.Attempt.called clausis.Desktop.Attempt.skip clausis.Desktop.Attempt.observed
    clausis.Desktop.Attempt.◌and_then◌ clausis.Desktop.Attempt.commit clausis.Desktop.Attempt.ran
    clausis.Desktop.Attempt.holds_text clausis.Desktop.Attempt.holds_caret
    clausis.Desktop.Attempt.holds_selections clausis.Desktop.Attempt.holds_spans
    clausis.Desktop.Attempt.remove_selections clausis.Desktop.Attempt.add_selections
    clausis.Desktop.Change.run_change clausis.Desktop.Field.contains clausis.Desktop.Field.is_secret
    clausis.Desktop.Field.snapshot clausis.Desktop.Field.span_within
    clausis.Desktop.Field.text_field clausis.Text.starts_with clausis.Text.text_eq
    clausis.Text.pieces clausis.Text.nonempty clausis.Text.runs clausis.Text.join_with
    clausis.Text.normalize_spaces clausis.Text.casefold clausis.Desktop.Words.back_while
    clausis.Desktop.Words.forth_while clausis.Desktop.Words.word_start
caret_moved = refl
