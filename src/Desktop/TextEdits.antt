-- ===== src/Desktop/TextEdits.antt =====
-- The operations of src/clausis/gnome_adapter.py that insert, delete and replace characters and words
-- at the caret.
use clausis.Prelude.{ℕ, ◌+◌, ◌-◌, true, false, Option, none, some, if◌then◌else◌, length, ltb}
use clausis.Outcome.{Outcome, ok, raised, value_error, ◌>>=◌, ◌>>◌}
use clausis.Stdlib.{Stdlib, Text}
use clausis.Text.{codes}
use clausis.Desktop.Provider.{AtSpi}
use clausis.Desktop.Field.{
  told_if, or_refuse, or_refuse_other, refuse_if, text_field, field_name, max_text, count_within,
  caret_within, selections_within, snapshot, Direction, backward, forward, direction_of, at_edge,
  inserted, cut, replaced, is_unspeakable,
}
use clausis.Desktop.Words.{word_span}
use clausis.Desktop.Edit.{Edit, Mutation, insertion, deletion, contents, run_edit}

-- A change of the text at the caret: the caret is put in its place, and undoing only looks for
-- selections.
abbrev pub text_edit : {Node : Type 0} → Node → Mutation → Text → ℕ → Text → ℕ → Edit Node
text_edit n mutation previous caret expected expected_caret = record {
  node = n;
  fallback = codes "Textfeld";
  mutation = mutation;
  previous = previous;
  caret = caret;
  expected = expected;
  expected_caret = expected_caret;
  places_caret = true;
  drops_selections = false;
}

-- The character beside the caret, and the caret once it is gone.
abbrev pub beside : Direction → ℕ → ℕ
beside backward caret = caret - 1
beside forward caret = caret

-- The caret once the word from `start` to `end` beside it is gone.
abbrev pub after_word : Direction → ℕ → ℕ → ℕ → ℕ
after_word backward caret start end = caret - (end - start)
after_word forward caret start end = caret

abbrev pub character_deletion :
    {Node : Type 0} → Direction → Node → ℕ → ℕ → Text → Option (Edit Node)
character_deletion d n count caret previous =
    let start = beside d caret in
    if at_edge d count caret
    then none
    else some (
        text_edit n (deletion start (start + 1)) previous caret (cut start (start + 1) previous)
          start)

abbrev pub word_deletion :
    {Node : Type 0} → Direction → Node → ℕ → ℕ → ℕ → Text → Outcome (Edit Node)
word_deletion d n caret start end previous = ok (
    text_edit n (deletion start end) previous caret (cut start end previous)
      (after_word d caret start end))

-- a replacement, `ValueError` where the text grows too long
abbrev pub word_replacement : {Node : Type 0} → Text → Node → ℕ → ℕ → ℕ → Text → Outcome (Edit Node)
word_replacement value n caret start end previous =
    let expected = replaced start end value previous in
    if ltb max_text (length expected)
    then raised (value_error "word replacement result too large")
    else ok (text_edit n (contents expected) previous caret expected (start + length value))

module _ {World : Type 0} ⦃spi : AtSpi World⦄ ⦃py : Stdlib⦄ where
  -- The length of a text that can be edited, and the caret, where there is no selection.
  abbrev pub editable_field : World → spi.Node → ℕ → Outcome (ℕ × ℕ)
  editable_field w n most = do
    told_if (spi.has_text w n)
    told_if (spi.has_editable_text w n)
    count ← count_within 0 most w n
    caret ← caret_within count w n
    _ ← selections_within 0 0 w n
    ok (count, caret)

  -- The same with the text.
  abbrev pub whole_field : World → spi.Node → Outcome (ℕ × (ℕ × Text))
  whole_field w n = do
    (count, caret) ← editable_field w n max_text
    previous ← snapshot count w n
    ok (count, (caret, previous))

  abbrev pub insertion_of : Text → World → spi.Node → Outcome (Edit spi.Node)
  insertion_of value w n = do
    (count, caret) ← editable_field w n (max_text - length value)
    previous ← snapshot count w n
    ok (
        text_edit n (insertion caret value) previous caret (inserted caret value previous)
          (caret + length value))

  unfoldable pub plan_insertion : Text → World → Outcome (Text × Option (Edit spi.Node))
  plan_insertion value w = do
    refuse_if (is_unspeakable value)
        "Der einzufügende Text muss 1 bis 500 druckbare Zeichen enthalten."
    n ←
        text_field "Das fokussierte Element ist kein bearbeitbares Textfeld."
          "In geschützte Textfelder wird kein Text eingefügt." w
    e ← or_refuse "Der Textcursor ist nicht sicher zum Einfügen verfügbar." (insertion_of value w n)
    ok (field_name w n, some e)

  -- insert_focused_text_at_caret
  unfoldable pub insert_focused_text_at_caret : Text → World → Outcome Text × World
  insert_focused_text_at_caret value w =
      run_edit "Das fehlgeschlagene Einfügen konnte nicht zurückgesetzt werden."
        "Das Einfügen am Textcursor konnte nicht bestätigt werden." (plan_insertion value w) w

  unfoldable pub plan_character_deletion : Text → World → Outcome (Text × Option (Edit spi.Node))
  plan_character_deletion direction w = do
    d ← direction_of "Unzulässige Richtung für das Löschen am Textcursor." direction
    n ←
        text_field "Das fokussierte Element ist kein bearbeitbares Textfeld."
          "Aus geschützten Textfeldern werden keine Zeichen gelöscht." w
    (count, (caret, previous)) ←
        or_refuse "Der Textcursor ist nicht sicher zum Löschen verfügbar." (whole_field w n)
    ok (field_name w n, character_deletion d n count caret previous)

  -- delete_focused_text_character
  unfoldable pub delete_focused_text_character : Text → World → Outcome Text × World
  delete_focused_text_character direction w =
      run_edit "Das fehlgeschlagene Löschen des Zeichens konnte nicht zurückgesetzt werden."
        "Das Löschen des Zeichens konnte nicht bestätigt werden."
        (plan_character_deletion direction w) w

  -- what is made of the word, if there is one
  abbrev pub edited_word :
      (ℕ → ℕ → ℕ → Text → Outcome (Edit spi.Node))
      → World
      → spi.Node
      → ℕ
      → ℕ
      → Option (ℕ × ℕ)
      → Outcome (Option (Edit spi.Node))
  edited_word edit w n count caret none = ok none
  edited_word edit w n count caret (some (start, end)) = do
    previous ← snapshot count w n
    e ← edit caret start end previous
    ok (some e)

  -- The word beside the caret, and what is made of it, in a field that is not left at its edge.
  abbrev pub word_edit :
      (ℕ → ℕ → ℕ → Text → Outcome (Edit spi.Node))
      → Direction
      → World
      → spi.Node
      → Outcome (Option (Edit spi.Node))
  word_edit edit d w n = do
    (count, caret) ← editable_field w n max_text
    if at_edge d count caret
        then ok none
        else word_span d w n count caret >>= edited_word edit w n count caret

  unfoldable pub plan_word_deletion : Text → World → Outcome (Text × Option (Edit spi.Node))
  plan_word_deletion direction w = do
    d ← direction_of "Unzulässige Richtung für die Wortlöschung." direction
    n ←
        text_field "Das fokussierte Element ist kein bearbeitbares Textfeld."
          "Aus geschützten Textfeldern werden keine Wörter gelöscht." w
    e ←
        or_refuse_other "Das benachbarte Wort ist innerhalb der sicheren Suchgrenze nicht löschbar."
          (word_edit (word_deletion d n) d w n)
    ok (field_name w n, e)

  -- delete_focused_text_word
  unfoldable pub delete_focused_text_word : Text → World → Outcome Text × World
  delete_focused_text_word direction w =
      run_edit "Die fehlgeschlagene Wortlöschung konnte nicht zurückgesetzt werden."
        "Die Wortlöschung konnte nicht bestätigt werden." (plan_word_deletion direction w) w

  unfoldable pub plan_word_replacement :
      Text → Text → World → Outcome (Text × Option (Edit spi.Node))
  plan_word_replacement direction value w = do
    d ← direction_of "Unzulässige Richtung für den Wortersatz." direction
    refuse_if (is_unspeakable value) "Der Wortersatz muss 1 bis 500 druckbare Zeichen enthalten."
    n ←
        text_field "Das fokussierte Element ist kein bearbeitbares Textfeld."
          "Wörter in geschützten Textfeldern werden nicht ersetzt." w
    e ←
        or_refuse_other
          "Das benachbarte Wort ist innerhalb der sicheren Suchgrenze nicht ersetzbar."
          (word_edit (word_replacement value n) d w n)
    ok (field_name w n, e)

  -- replace_focused_text_word
  unfoldable pub replace_focused_text_word : Text → Text → World → Outcome Text × World
  replace_focused_text_word direction value w =
      run_edit "Der fehlgeschlagene Wortersatz konnte nicht zurückgesetzt werden."
        "Der Wortersatz konnte nicht bestätigt werden." (plan_word_replacement direction value w) w
