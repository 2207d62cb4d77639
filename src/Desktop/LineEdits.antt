-- ===== src/Desktop/LineEdits.antt =====
-- The operations of src/clausis/gnome_adapter.py that delete, replace, insert and duplicate the line
-- around the caret.
use clausis.Prelude.{
  ℕ, ◌+◌, ◌-◌, Bool, true, false, ◌||◌, String, [], ◌∷◌, ◌++◌, Option, some, if◌then◌else◌, length,
  ltb, leb, ◌==◌, is_empty,
}
use clausis.Outcome.{Outcome, ok, raised, value_error, ◌>>=◌, ◌>>◌}
use clausis.Stdlib.{Stdlib, Text}
use clausis.Text.{text_elem, codes}
use clausis.Desktop.Provider.{AtSpi}
use clausis.Desktop.Field.{
  told, told_if, or_refuse, refuse_if, refuse, max_text, counted, snapshot, inserted, cut, replaced,
  is_unspeakable,
}
use clausis.Desktop.Lines.{LineContext, line_context}
use clausis.Desktop.Edit.{Edit, Mutation, deletion, contents, run_edit}

-- A change of the line: the caret is put in its place, and undoing takes away the selections.
abbrev pub line_edit : {Node : Type 0} → LineContext Node → Mutation → Text → Text → ℕ → Edit Node
line_edit line mutation previous expected expected_caret = record {
  node = line.node;
  fallback = line.name;
  mutation = mutation;
  previous = previous;
  caret = line.caret;
  expected = expected;
  expected_caret = expected_caret;
  places_caret = true;
  drops_selections = true;
}

-- not value or end <= start
abbrev pub is_blank : {Node : Type 0} → LineContext Node → Bool
is_blank line = is_empty line.value || leb line.end line.start

-- The two sides that a new line may have.
pub data Side : Type 0 where
  above below : Side

abbrev pub side_of : String → Text → Outcome Side
side_of message t =
    if text_elem t (codes "above" ∷ [])
    then ok above
    else if text_elem t (codes "below" ∷ [])
    then ok below
    else refuse message

-- What is deleted with the line: the line break after it, or else the one before it.
abbrev pub deleted_span : {Node : Type 0} → LineContext Node → ℕ → ℕ × ℕ
deleted_span line count =
    if ltb line.end count
    then (line.start, line.end + 1)
    else if ltb 0 line.start
    then (line.start - 1, line.end)
    else (line.start, line.end)

-- The deletion is the one change after which the caret is only looked at.
abbrev pub line_deletion : {Node : Type 0} → LineContext Node → ℕ × ℕ → Text → Edit Node
line_deletion line (start, end) previous = record {
  node = line.node;
  fallback = line.name;
  mutation = deletion start end;
  previous = previous;
  caret = line.caret;
  expected = cut start end previous;
  expected_caret = start;
  places_caret = false;
  drops_selections = true;
}

-- the contents that are set, `ValueError` where they are too long
abbrev pub new_contents : {Node : Type 0} → LineContext Node → Text → Text → ℕ → Outcome (Edit Node)
new_contents line previous expected expected_caret =
    if ltb max_text (length expected)
    then raised (value_error "result too large")
    else ok (line_edit line (contents expected) previous expected expected_caret)

-- A line beside the current one: where it is inserted, with its line break, and the caret after it.
abbrev pub with_line : {Node : Type 0} → LineContext Node → Side → Text → Text → Outcome (Edit Node)
with_line line above value previous =
    new_contents line previous (inserted line.start (value ++ (10 ∷ [])) previous)
      (line.start + length value)
with_line line below value previous =
    new_contents line previous (inserted line.end (10 ∷ value) previous)
      (line.end + 1 + length value)

module _ {World : Type 0} ⦃spi : AtSpi World⦄ ⦃py : Stdlib⦄ where
  -- The length and the text of the field whose line is changed.
  abbrev pub line_snapshot : World → spi.Node → Outcome (ℕ × Text)
  line_snapshot w n = do
    told_if (spi.has_editable_text w n)
    count ← told (spi.character_count w n) >>= counted
    previous ← snapshot count w n
    ok (count, previous)

  unfoldable pub plan_line_deletion : World → Outcome (Text × Option (Edit spi.Node))
  plan_line_deletion w = do
    line ← line_context true w
    refuse_if (is_blank line) "Die aktuelle Zeile ist leer und wird nicht gelöscht."
    (count, previous) ←
        or_refuse "Die aktuelle Zeile ist nicht sicher löschbar." (line_snapshot w line.node)
    ok (line.name, some (line_deletion line (deleted_span line count) previous))

  -- delete_focused_text_line
  unfoldable pub delete_focused_text_line : World → Outcome Text × World
  delete_focused_text_line w =
      run_edit "Das fehlgeschlagene Löschen der Zeile konnte nicht zurückgesetzt werden."
        "Das Löschen der Zeile konnte nicht bestätigt werden." (plan_line_deletion w) w

  unfoldable pub plan_line_replacement : Text → World → Outcome (Text × Option (Edit spi.Node))
  plan_line_replacement value w = do
    refuse_if (is_unspeakable value) "Der Ersatztext muss 1 bis 500 druckbare Zeichen enthalten."
    line ← line_context true w
    refuse_if (is_blank line) "Die aktuelle Zeile ist leer und wird nicht ersetzt."
    e ← or_refuse "Die aktuelle Zeile ist nicht sicher ersetzbar." (do
      (count, previous) ← line_snapshot w line.node
      new_contents line previous (replaced line.start line.end value previous)
          (line.start + length value))
    ok (line.name, some e)

  -- replace_focused_text_line
  unfoldable pub replace_focused_text_line : Text → World → Outcome Text × World
  replace_focused_text_line value w =
      run_edit "Das fehlgeschlagene Ersetzen der Zeile konnte nicht zurückgesetzt werden."
        "Das Ersetzen der Zeile konnte nicht bestätigt werden." (plan_line_replacement value w) w

  unfoldable pub plan_line_insertion : Text → Text → World → Outcome (Text × Option (Edit spi.Node))
  plan_line_insertion direction value w = do
    side ← side_of "Unzulässige Richtung für die neue Zeile." direction
    refuse_if (is_unspeakable value) "Die neue Zeile muss 1 bis 500 druckbare Zeichen enthalten."
    line ← line_context true w
    e ← or_refuse "Die neue Zeile ist nicht sicher einfügbar." (do
      (count, previous) ← line_snapshot w line.node
      if count == 0
          then new_contents line previous value (length value)
          else with_line line side value previous)
    ok (line.name, some e)

  -- insert_focused_text_line
  unfoldable pub insert_focused_text_line : Text → Text → World → Outcome Text × World
  insert_focused_text_line direction value w =
      run_edit "Das fehlgeschlagene Einfügen der Zeile konnte nicht zurückgesetzt werden."
        "Das Einfügen der Zeile konnte nicht bestätigt werden."
        (plan_line_insertion direction value w) w

  unfoldable pub plan_line_duplication : Text → World → Outcome (Text × Option (Edit spi.Node))
  plan_line_duplication direction w = do
    side ← side_of "Unzulässige Richtung für die Zeilenduplizierung." direction
    line ← line_context true w
    refuse_if (is_blank line) "Die aktuelle Zeile ist leer und wird nicht dupliziert."
    e ←
        or_refuse "Die aktuelle Zeile ist nicht sicher duplizierbar." (do
          (count, previous) ← line_snapshot w line.node
          with_line line side line.value previous)
    ok (line.name, some e)

  -- duplicate_focused_text_line
  unfoldable pub duplicate_focused_text_line : Text → World → Outcome Text × World
  duplicate_focused_text_line direction w =
      run_edit "Die fehlgeschlagene Zeilenduplizierung konnte nicht zurückgesetzt werden."
        "Die Zeilenduplizierung konnte nicht bestätigt werden." (plan_line_duplication direction w)
        w
