-- ===== src/Desktop/Operations.antt =====
-- The operations of src/clausis/gnome_adapter.py that edit the focused text, taken together.
use clausis.Prelude.{◌≡◌, ◌⊎◌, inl, inr, refl, sym, subst, String, Option, none, some}
use clausis.Outcome.{Exception, Outcome, ok, raised}
use clausis.Stdlib.{Stdlib, Text}
use clausis.Desktop.Provider.{AtSpi}
use clausis.Desktop.Edit.{Edit, run_edit}
use clausis.Desktop.TextEdits.{
  plan_insertion, insert_focused_text_at_caret, plan_character_deletion,
  delete_focused_text_character, plan_word_deletion, delete_focused_text_word,
  plan_word_replacement, replace_focused_text_word,
}
use clausis.Desktop.LineEdits.{
  plan_line_deletion, delete_focused_text_line, plan_line_replacement, replace_focused_text_line,
  plan_line_insertion, insert_focused_text_line, plan_line_duplication, duplicate_focused_text_line,
}
use clausis.Desktop.LineMoves.{
  plan_line_move, move_focused_text_line, plan_line_join, join_focused_text_line, plan_line_split,
  split_focused_text_line, plan_line_indentation, indent_focused_text_line,
}
use clausis.Desktop.Restored.{CaretKeepsText}
use clausis.Desktop.Ends.{PlanEnds, EditEnds, run_edit-PlanEnds}
use clausis.Desktop.Safe.{StartsFrom}
use clausis.Desktop.Planned.{
  plan_insertion-StartsFrom, plan_character_deletion-StartsFrom, plan_word_deletion-StartsFrom,
  plan_word_replacement-StartsFrom,
}
use clausis.Desktop.PlannedLines.{
  plan_line_deletion-StartsFrom, plan_line_replacement-StartsFrom, plan_line_insertion-StartsFrom,
  plan_line_duplication-StartsFrom, plan_line_move-StartsFrom, plan_line_join-StartsFrom,
  plan_line_split-StartsFrom, plan_line_indentation-StartsFrom,
}

-- An operation with its arguments.
pub data Operation : Type 0 where
  insert_at_caret delete_character delete_word replace_line : Text → Operation
  duplicate_line move_line join_line indent_line : Text → Operation
  replace_word insert_line : Text → Text → Operation
  delete_line split_line : Operation

-- What each operation tells of a change that could not be undone, and of one that was undone.
abbrev pub not_restored_of : Operation → String
not_restored_of (insert_at_caret _) =
    "Das fehlgeschlagene Einfügen konnte nicht zurückgesetzt werden."
not_restored_of (delete_character _) =
    "Das fehlgeschlagene Löschen des Zeichens konnte nicht zurückgesetzt werden."
not_restored_of (delete_word _) =
    "Die fehlgeschlagene Wortlöschung konnte nicht zurückgesetzt werden."
not_restored_of (replace_line _) =
    "Das fehlgeschlagene Ersetzen der Zeile konnte nicht zurückgesetzt werden."
not_restored_of (duplicate_line _) =
    "Die fehlgeschlagene Zeilenduplizierung konnte nicht zurückgesetzt werden."
not_restored_of (move_line _) =
    "Das fehlgeschlagene Verschieben der Zeile konnte nicht zurückgesetzt werden."
not_restored_of (join_line _) =
    "Das fehlgeschlagene Verbinden der Zeilen konnte nicht zurückgesetzt werden."
not_restored_of (indent_line _) =
    "Die fehlgeschlagene Zeileneinrückung konnte nicht zurückgesetzt werden."
not_restored_of (replace_word _ _) =
    "Der fehlgeschlagene Wortersatz konnte nicht zurückgesetzt werden."
not_restored_of (insert_line _ _) =
    "Das fehlgeschlagene Einfügen der Zeile konnte nicht zurückgesetzt werden."
not_restored_of delete_line =
    "Das fehlgeschlagene Löschen der Zeile konnte nicht zurückgesetzt werden."
not_restored_of split_line =
    "Das fehlgeschlagene Teilen der Zeile konnte nicht zurückgesetzt werden."

abbrev pub not_confirmed_of : Operation → String
not_confirmed_of (insert_at_caret _) = "Das Einfügen am Textcursor konnte nicht bestätigt werden."
not_confirmed_of (delete_character _) = "Das Löschen des Zeichens konnte nicht bestätigt werden."
not_confirmed_of (delete_word _) = "Die Wortlöschung konnte nicht bestätigt werden."
not_confirmed_of (replace_line _) = "Das Ersetzen der Zeile konnte nicht bestätigt werden."
not_confirmed_of (duplicate_line _) = "Die Zeilenduplizierung konnte nicht bestätigt werden."
not_confirmed_of (move_line _) = "Das Verschieben der Zeile konnte nicht bestätigt werden."
not_confirmed_of (join_line _) = "Das Verbinden der Zeilen konnte nicht bestätigt werden."
not_confirmed_of (indent_line _) = "Die Zeileneinrückung konnte nicht bestätigt werden."
not_confirmed_of (replace_word _ _) = "Der Wortersatz konnte nicht bestätigt werden."
not_confirmed_of (insert_line _ _) = "Das Einfügen der Zeile konnte nicht bestätigt werden."
not_confirmed_of delete_line = "Das Löschen der Zeile konnte nicht bestätigt werden."
not_confirmed_of split_line = "Das Teilen der Zeile konnte nicht bestätigt werden."

module _ {World : Type 0} ⦃spi : AtSpi World⦄ ⦃py : Stdlib⦄ where
  abbrev pub plan_of : Operation → World → Outcome (Text × Option (Edit spi.Node))
  plan_of (insert_at_caret value) = plan_insertion value
  plan_of (delete_character direction) = plan_character_deletion direction
  plan_of (delete_word direction) = plan_word_deletion direction
  plan_of (replace_line value) = plan_line_replacement value
  plan_of (duplicate_line direction) = plan_line_duplication direction
  plan_of (move_line direction) = plan_line_move direction
  plan_of (join_line direction) = plan_line_join direction
  plan_of (indent_line direction) = plan_line_indentation direction
  plan_of (replace_word direction value) = plan_word_replacement direction value
  plan_of (insert_line direction value) = plan_line_insertion direction value
  plan_of delete_line = plan_line_deletion
  plan_of split_line = plan_line_split

  abbrev pub run_operation : Operation → World → Outcome Text × World
  run_operation (insert_at_caret value) = insert_focused_text_at_caret value
  run_operation (delete_character direction) = delete_focused_text_character direction
  run_operation (delete_word direction) = delete_focused_text_word direction
  run_operation (replace_line value) = replace_focused_text_line value
  run_operation (duplicate_line direction) = duplicate_focused_text_line direction
  run_operation (move_line direction) = move_focused_text_line direction
  run_operation (join_line direction) = join_focused_text_line direction
  run_operation (indent_line direction) = indent_focused_text_line direction
  run_operation (replace_word direction value) = replace_focused_text_word direction value
  run_operation (insert_line direction value) = insert_focused_text_line direction value
  run_operation delete_line = delete_focused_text_line
  run_operation split_line = split_focused_text_line

  plan_of-StartsFrom :
      (o : Operation) (w : World) (settled : Text) (e : Edit spi.Node)
      → plan_of o w ≡ ok (settled, some e)
      → StartsFrom w e
  plan_of-StartsFrom (insert_at_caret value) = plan_insertion-StartsFrom value
  plan_of-StartsFrom (delete_character direction) = plan_character_deletion-StartsFrom direction
  plan_of-StartsFrom (delete_word direction) = plan_word_deletion-StartsFrom direction
  plan_of-StartsFrom (replace_line value) = plan_line_replacement-StartsFrom value
  plan_of-StartsFrom (duplicate_line direction) = plan_line_duplication-StartsFrom direction
  plan_of-StartsFrom (move_line direction) = plan_line_move-StartsFrom direction
  plan_of-StartsFrom (join_line direction) = plan_line_join-StartsFrom direction
  plan_of-StartsFrom (indent_line direction) = plan_line_indentation-StartsFrom direction
  plan_of-StartsFrom (replace_word direction value) =
      plan_word_replacement-StartsFrom direction value
  plan_of-StartsFrom (insert_line direction value) = plan_line_insertion-StartsFrom direction value
  plan_of-StartsFrom delete_line = plan_line_deletion-StartsFrom
  plan_of-StartsFrom split_line = plan_line_split-StartsFrom

  -- each operation runs its plan, with its own two messages
  run_operation-run_edit :
      (o : Operation) (w : World)
      → run_operation o w ≡ run_edit (not_restored_of o) (not_confirmed_of o) (plan_of o w) w
  unfolding insert_focused_text_at_caret delete_focused_text_character delete_focused_text_word
      replace_focused_text_line duplicate_focused_text_line move_focused_text_line
      join_focused_text_line indent_focused_text_line replace_focused_text_word
      insert_focused_text_line delete_focused_text_line split_focused_text_line
  run_operation-run_edit (insert_at_caret value) w = refl
  run_operation-run_edit (delete_character direction) w = refl
  run_operation-run_edit (delete_word direction) w = refl
  run_operation-run_edit (replace_line value) w = refl
  run_operation-run_edit (duplicate_line direction) w = refl
  run_operation-run_edit (move_line direction) w = refl
  run_operation-run_edit (join_line direction) w = refl
  run_operation-run_edit (indent_line direction) w = refl
  run_operation-run_edit (replace_word direction value) w = refl
  run_operation-run_edit (insert_line direction value) w = refl
  run_operation-run_edit delete_line w = refl
  run_operation-run_edit split_line w = refl

  -- An operation whose plan is refused raises what the plan raises, one that finds nothing to do
  -- returns the field's name, and both leave the desktop as it was. Any other runs the edit that it
  -- planned for the focused text field of the one active window, which holds no secret, from the text
  -- and the caret that the field shows. Then it returns the field's name and the field shows the
  -- planned text and caret without a selection; or the provider could not carry the edit out, and the
  -- operation either raises its message for an edit that is not confirmed and the field shows the
  -- earlier text and caret without a selection again, or raises its message for an edit that is not
  -- undone, and the provider could not undo it. Putting the caret at a place is to leave the text as
  -- it is.
  pub run_operation-IsAtomic :
      (o : Operation) (w : World)
      → CaretKeepsText spi
      → ((x : Exception) × (plan_of o w ≡ raised x) × (run_operation o w ≡ (raised x, w)))
        ⊎ (((settled : Text) × (plan_of o w ≡ ok (settled, none))
              × (run_operation o w ≡ (ok settled, w)))
            ⊎ ((settled : Text) × (e : Edit spi.Node) × (plan_of o w ≡ ok (settled, some e))
                × StartsFrom w e
                × EditEnds (not_restored_of o) (not_confirmed_of o) e w (run_operation o w)))
  run_operation-IsAtomic o w keeps = step (
      subst (PlanEnds (not_restored_of o) (not_confirmed_of o) (plan_of o w) w)
        (sym (run_operation-run_edit o w))
        (run_edit-PlanEnds (not_restored_of o) (not_confirmed_of o) (plan_of o w) w keeps))
    where
      step :
          PlanEnds (not_restored_of o) (not_confirmed_of o) (plan_of o w) w (run_operation o w)
          → ((x : Exception) × (plan_of o w ≡ raised x) × (run_operation o w ≡ (raised x, w)))
            ⊎ (((settled : Text) × (plan_of o w ≡ ok (settled, none))
                  × (run_operation o w ≡ (ok settled, w)))
                ⊎ ((settled : Text) × (e : Edit spi.Node) × (plan_of o w ≡ ok (settled, some e))
                    × StartsFrom w e
                    × EditEnds (not_restored_of o) (not_confirmed_of o) e w (run_operation o w)))
      step (inl refused) = inl refused
      step (inr (inl settled)) = inr (inl settled)
      step (inr (inr (settled, e, planned, ends))) =
          inr (inr (settled, e, planned, plan_of-StartsFrom o w settled e planned, ends))
