-- ===== src/Desktop/SelectionEdits.antt =====
-- The operations of src/clausis/gnome_adapter.py that delete and replace the selected text, and the
-- ones that replace the whole text of a field.
use clausis.Prelude.{
  ℕ, ◌+◌, Bool, true, false, ◌&&◌, ◌||◌, not, String, [], ◌∷◌, Option, none, some, if◌then◌else◌,
  is_empty, length, ltb, ◌==◌, any,
}
use clausis.Outcome.{Outcome, ok, raised, value_error, ◌>>=◌, ◌>>◌}
use clausis.Stdlib.{Stdlib, Text}
use clausis.Text.{codes, casefold, text_eq, is_control}
use clausis.Desktop.Provider.{AtSpi, focused}
use clausis.Desktop.Tree.{active_window, find_state, role}
use clausis.Desktop.Attempt.{
  Attempt, called, ran, observed, ◌and_then◌, holds_text, holds_caret, holds_selections,
  holds_spans, remove_selections, reads_text,
}
use clausis.Desktop.Change.{Change, run_change}
use clausis.Desktop.Field.{
  told, told_if, or_refuse, refuse_if, refuse, text_field, field_name, max_text, count_within,
  caret_within, selections_within, snapshot, span_within, cut, replaced, is_unspeakable, is_secret,
}
use clausis.Desktop.Edit.{place_caret, set_contents, is_at}

-- What is read of a field with one selection before it is changed.
pub record Selected : Type 0 where
  pub caret : ℕ
  pub start : ℕ
  pub end : ℕ
  pub previous : Text

-- What `_set_text_node` does once the field is known: how it fails depends on whether a call
-- raised, the field refused, or the text that is then read is another one.
abbrev pub fill_messages : Option Bool → Option Text → Text → Option (String × String)
fill_messages (some true) (some seen) value =
    if text_eq seen value
    then none
    else some (
      "Die Texteingabe war inkonsistent und konnte nicht zurückgesetzt werden.",
      "Die Texteingabe konnte nicht bestätigt werden.",
    )
fill_messages (some false) (some seen) value = some (
  "Die abgelehnte Texteingabe konnte nicht zurückgesetzt werden.",
  "Das Textfeld hat die Eingabe abgelehnt.",
)
fill_messages _ _ value = some (
  "Die fehlgeschlagene Texteingabe konnte nicht zurückgesetzt werden.",
  "Die Texteingabe ist fehlgeschlagen.",
)

-- a control character that is neither a tab nor a line break, or the delete character
abbrev is_unsafe : ℕ → Bool
is_unsafe c = is_control c && not (c == 9 || c == 10) || c == 127

module _ {World : Type 0} ⦃spi : AtSpi World⦄ where
  unfoldable pub selected : World → spi.Node → Outcome Selected
  selected w n = do
    told_if (spi.has_text w n)
    told_if (spi.has_editable_text w n)
    count ← count_within 1 max_text w n
    caret ← caret_within count w n
    _ ← selections_within 1 1 w n
    (start, end) ← span_within 0 1 count w n
    previous ← snapshot count w n
    ok (record { caret = caret; start = start; end = end; previous = previous })

  -- the one selection is made again
  abbrev reselect : spi.Node → Selected → Attempt World
  reselect n s =
      called (spi.add_selection n s.start s.end)
      and_then observed (holds_spans n ((s.start, s.end) ∷ []))

  unfoldable pub selection_deletion : spi.Node → Selected → Change World spi.Node
  selection_deletion n s = record {
    node = n;
    fallback = codes "Textfeld";
    change =
        called (spi.delete_text n s.start s.end)
        and_then observed (holds_text n (cut s.start s.end s.previous))
        and_then observed (holds_selections n 0);
    restore =
        ran (spi.set_text_contents n s.previous)
        and_then observed (holds_text n s.previous)
        and_then place_caret n s.caret
        and_then observed (holds_caret n s.caret)
        and_then remove_selections n
        and_then reselect n s;
  }

  unfoldable pub selection_replacement :
      Text → spi.Node → Selected → Outcome (Change World spi.Node)
  selection_replacement value n s =
      let expected = replaced s.start s.end value s.previous in
      let caret = s.start + length value in
      if ltb max_text (length expected)
      then raised (value_error "replacement result too large")
      else ok (record {
        node = n;
        fallback = codes "Textfeld";
        change =
            set_contents n expected and_then place_caret n caret and_then is_at n expected caret;
        restore =
            set_contents n s.previous
            and_then remove_selections n
            and_then observed (holds_text n s.previous)
            and_then place_caret n s.caret
            and_then observed (holds_caret n s.caret)
            and_then reselect n s;
      })

  -- str(text.getText(0, -1)) == t
  unfoldable pub holds_whole : spi.Node → Text → World → Bool
  holds_whole n t w = reads_text (spi.whole_text w n) t

  module _ ⦃py : Stdlib⦄ where
    unfoldable pub plan_selection_deletion : World → Outcome (Text × Option (Change World spi.Node))
    plan_selection_deletion w = do
      n ←
          text_field "Das fokussierte Element ist kein bearbeitbares Textfeld."
            "Aus geschützten Textfeldern wird nichts gelöscht." w
      s ← or_refuse "Die Textauswahl ist nicht sicher löschbar." (selected w n)
      ok (field_name w n, some (selection_deletion n s))

    -- delete_focused_text_selection
    unfoldable pub delete_focused_text_selection : World → Outcome Text × World
    delete_focused_text_selection w =
        run_change "Das fehlgeschlagene Löschen konnte nicht zurückgesetzt werden."
          "Das Löschen der Textauswahl konnte nicht bestätigt werden." (plan_selection_deletion w) w

    unfoldable pub plan_selection_replacement :
        Text → World → Outcome (Text × Option (Change World spi.Node))
    plan_selection_replacement value w = do
      refuse_if (is_unspeakable value) "Der Ersatztext muss 1 bis 500 druckbare Zeichen enthalten."
      n ←
          text_field "Das fokussierte Element ist kein bearbeitbares Textfeld."
            "Auswahlen in geschützten Textfeldern werden nicht ersetzt." w
      c ←
          or_refuse "Die Textauswahl ist nicht sicher ersetzbar."
            (selected w n >>= selection_replacement value n)
      ok (field_name w n, some c)

    -- replace_focused_text_selection
    unfoldable pub replace_focused_text_selection : Text → World → Outcome Text × World
    replace_focused_text_selection value w =
        run_change "Das fehlgeschlagene Ersetzen konnte nicht zurückgesetzt werden."
          "Das Ersetzen der Textauswahl konnte nicht bestätigt werden."
          (plan_selection_replacement value w) w

    abbrev pub refilled : String × String → Bool × World → Outcome Text × World
    refilled (not_restored, restored) (b, w) = (refuse (if b then restored else not_restored), w)

    unfoldable pub fill : spi.Node → Text → Text → World → Outcome Text × World
    fill n previous value w =
        let (answer, w) = spi.set_text_contents n value w in
        elim (fill_messages answer (spi.whole_text w n) value) [
          | none ↦ (ok (field_name w n), w)
          | some messages ↦
              refilled messages
                ((set_contents n previous and_then observed (holds_whole n previous)) w)
        ]

    -- The text that a field holds before it is filled, once the field is seen to hold no secret.
    unfoldable pub fillable : World → spi.Node → Outcome Text
    fillable w n = do
      refuse_if (is_empty (casefold (role w n)))
          "Die Art des fokussierten Feldes ist nicht prüfbar."
      values ←
          or_refuse "Die Sicherheitseigenschaften des Textfeldes sind nicht prüfbar."
            (told (spi.attributes w n))
      refuse_if (is_secret (role w n) values)
          "Passwort- und geschützte Felder dürfen nicht per Sprache befüllt werden."
      or_refuse "Das fokussierte Element ist nicht sicher editierbar." (do
        told_if (spi.has_editable_text w n)
        told_if (spi.has_text w n)
        told (spi.whole_text w n))

    -- _set_text_node
    unfoldable pub set_text_node : spi.Node → Text → World → Outcome Text × World
    set_text_node n value w = elim (fillable w n) [
      | raised e ↦ (raised e, w)
      | ok previous ↦ fill n previous value w
    ]

    abbrev focused_node : World → Outcome spi.Node
    focused_node w = do
      window ← active_window w
      elim (find_state w window focused) [
        | none ↦ refuse "Kein fokussiertes Textfeld gefunden."
        | some n ↦ ok n
      ]

    abbrev set_focused : Outcome (Unit {0}) → Text → World → Outcome Text × World
    set_focused accepted value w = elim (accepted >> focused_node w) [
      | raised e ↦ (raised e, w)
      | ok n ↦ set_text_node n value w
    ]

    -- set_focused_text
    unfoldable pub set_focused_text : Text → World → Outcome Text × World
    set_focused_text value =
        set_focused
          (refuse_if (ltb 500 (length value) || any is_control value)
            "Der Text ist nicht als sichere Einzeleingabe erlaubt.")
          value

    -- set_focused_clipboard_text of a text
    unfoldable pub set_focused_clipboard_text : Text → World → Outcome Text × World
    set_focused_clipboard_text value =
        set_focused
          (refuse_if (is_empty value || ltb max_text (length value) || any is_unsafe value)
            "Der Zwischenablageinhalt ist nicht als sicherer Text erlaubt.")
          value
