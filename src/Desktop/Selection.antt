-- ===== src/Desktop/Selection.antt =====
-- The operations of src/clausis/gnome_adapter.py that select text and take selections away.
use clausis.Prelude.{
  ℕ, zero, suc, ◌+◌, ◌-◌, true, List, [], ◌∷◌, Option, none, some, if◌then◌else◌, is_empty, length,
}
use clausis.Outcome.{Outcome, ok, ◌>>=◌, ◌>>◌}
use clausis.Stdlib.{Stdlib, Text}
use clausis.Text.{codes}
use clausis.Desktop.Provider.{AtSpi}
use clausis.Desktop.Attempt.{
  Attempt, called, observed, ◌and_then◌, holds_caret, holds_selections, holds_spans, remove_down,
  remove_selections, add_selections,
}
use clausis.Desktop.Change.{Change, run_change}
use clausis.Desktop.Field.{
  told_if, or_refuse, or_refuse_other, refuse_if, text_field, field_name, max_text, count_within,
  caret_within, selections_within, span_within, Direction, backward, forward, direction_of, at_edge,
}
use clausis.Desktop.Words.{word_span}
use clausis.Desktop.Lines.{line_context}
use clausis.Desktop.LineEdits.{is_blank}
use clausis.Desktop.Edit.{place_caret}

-- the end of a selection that the caret goes to
abbrev far_end : Direction → ℕ → ℕ → ℕ
far_end backward start end = start
far_end forward start end = end

-- the start of the character beside the caret
abbrev start_beside : Direction → ℕ → ℕ → ℕ
start_beside backward previous caret = previous
start_beside forward previous caret = caret

module _ {World : Type 0} ⦃spi : AtSpi World⦄ where
  -- The selection of a span of a text that has none, with the caret at the target.
  unfoldable pub mark : spi.Node → Text → ℕ → ℕ → ℕ → ℕ → Change World spi.Node
  mark n fallback caret start end target = record {
    node = n;
    fallback = fallback;
    change =
        called (spi.add_selection n start end)
        and_then place_caret n target
        and_then observed (holds_spans n ((start, end) ∷ []))
        and_then observed (holds_caret n target);
    restore =
        remove_selections n
        and_then observed (holds_selections n 0)
        and_then place_caret n caret
        and_then observed (holds_caret n caret);
  }

  -- the selections from an index on, each of at least a length
  abbrev spans_from : ℕ → ℕ → World → spi.Node → ℕ → ℕ → Outcome (List (ℕ × ℕ))
  spans_from least count w n index zero = ok []
  spans_from least count w n index (suc left) = do
    span ← span_within index least count w n
    others ← spans_from least count w n (suc index) left
    ok (span ∷ others)

  -- The selections of a text, at most 64 of them.
  unfoldable pub spans_within : ℕ → ℕ → World → spi.Node → Outcome (List (ℕ × ℕ))
  spans_within least count w n = do
    selections ← selections_within 0 64 w n
    spans_from least count w n 0 selections

  -- undoing a change of the selections
  unfoldable pub restore_spans : spi.Node → List (ℕ × ℕ) → Attempt World
  restore_spans n previous =
      remove_selections n
      and_then add_selections n previous
      and_then observed (holds_spans n previous)

  -- The previous selections, and the change by which the whole text becomes the only one.
  unfoldable pub select_all : spi.Node → ℕ → List (ℕ × ℕ) → Change World spi.Node
  select_all n count previous = record {
    node = n;
    fallback = codes "Textfeld";
    change =
        remove_down n (length previous)
        and_then called (spi.add_selection n 0 count)
        and_then observed (holds_spans n ((0, count) ∷ []));
    restore = restore_spans n previous;
  }

  unfoldable pub clear_selections : spi.Node → List (ℕ × ℕ) → Option (Change World spi.Node)
  clear_selections n previous =
      if is_empty previous
      then none
      else some (record {
        node = n;
        fallback = codes "Textfeld";
        change = remove_down n (length previous) and_then observed (holds_selections n 0);
        restore = restore_spans n previous;
      })

  module _ ⦃py : Stdlib⦄ where
    unfoldable pub plan_select_all : World → Outcome (Text × Option (Change World spi.Node))
    plan_select_all w = do
      n ←
          text_field "Das fokussierte Element ist kein auswählbares Textfeld."
            "Geschützte Textfelder werden nicht vollständig ausgewählt." w
      c ← or_refuse "Die vollständige Textauswahl ist nicht sicher verfügbar." (do
        told_if (spi.has_text w n)
        count ← count_within 1 max_text w n
        previous ← spans_within 0 count w n
        ok (select_all n count previous))
      ok (field_name w n, some c)

    -- select_all_focused_text
    unfoldable pub select_all_focused_text : World → Outcome Text × World
    select_all_focused_text w =
        run_change "Die fehlgeschlagene Textauswahl konnte nicht zurückgesetzt werden."
          "Die vollständige Textauswahl konnte nicht bestätigt werden." (plan_select_all w) w

    unfoldable pub plan_clear_selection : World → Outcome (Text × Option (Change World spi.Node))
    plan_clear_selection w = do
      n ←
          text_field "Das fokussierte Element ist kein auswählbares Textfeld."
            "Auswahlen in geschützten Textfeldern werden nicht verändert." w
      previous ← or_refuse "Die Textauswahl ist nicht sicher prüfbar." (do
        told_if (spi.has_text w n)
        count ← count_within 0 max_text w n
        spans_within 1 count w n)
      ok (field_name w n, clear_selections n previous)

    -- clear_focused_text_selection
    unfoldable pub clear_focused_text_selection : World → Outcome Text × World
    clear_focused_text_selection w =
        run_change "Das fehlgeschlagene Aufheben der Textauswahl konnte nicht zurückgesetzt werden."
          "Das Aufheben der Textauswahl konnte nicht bestätigt werden." (plan_clear_selection w) w

    -- The length of a text without a selection, and the caret.
    abbrev markable_field : World → spi.Node → Outcome (ℕ × ℕ)
    markable_field w n = do
      told_if (spi.has_text w n)
      count ← count_within 0 max_text w n
      caret ← caret_within count w n
      _ ← selections_within 0 0 w n
      ok (count, caret)

    abbrev character_mark : Direction → spi.Node → ℕ → ℕ → Option (Change World spi.Node)
    character_mark d n count caret =
        let start = start_beside d (caret - 1) caret in
        if at_edge d count caret
        then none
        else some (mark n (codes "Textfeld") caret start (start + 1) (far_end d start (start + 1)))

    unfoldable pub plan_character_mark :
        Text → World → Outcome (Text × Option (Change World spi.Node))
    plan_character_mark direction w = do
      d ← direction_of "Unzulässige Richtung für die Zeichenauswahl." direction
      n ←
          text_field "Das fokussierte Element ist kein auswählbares Textfeld."
            "In geschützten Textfeldern werden keine Zeichen ausgewählt." w
      (count, caret) ←
          or_refuse "Der Textcursor ist nicht sicher zur Auswahl verfügbar." (markable_field w n)
      ok (field_name w n, character_mark d n count caret)

    -- select_focused_text_character
    unfoldable pub select_focused_text_character : Text → World → Outcome Text × World
    select_focused_text_character direction w =
        run_change "Die fehlgeschlagene Zeichenauswahl konnte nicht zurückgesetzt werden."
          "Die Zeichenauswahl konnte nicht bestätigt werden." (plan_character_mark direction w) w

    abbrev word_mark : Direction → World → spi.Node → Outcome (Option (Change World spi.Node))
    word_mark d w n = do
      (count, caret) ← markable_field w n
      if at_edge d count caret then ok none else (do
        span ← word_span d w n count caret
        ok (elim span [
          | none ↦ none
          | some (start, end) ↦
              some (mark n (codes "Textfeld") caret start end (far_end d start end))
        ]))

    unfoldable pub plan_word_mark : Text → World → Outcome (Text × Option (Change World spi.Node))
    plan_word_mark direction w = do
      d ← direction_of "Unzulässige Richtung für die Wortauswahl." direction
      n ←
          text_field "Das fokussierte Element ist kein Textfeld."
            "In geschützten Textfeldern werden keine Wörter ausgewählt." w
      c ←
          or_refuse_other
            "Das benachbarte Wort ist innerhalb der sicheren Suchgrenze nicht auswählbar."
            (word_mark d w n)
      ok (field_name w n, c)

    -- select_focused_text_word
    unfoldable pub select_focused_text_word : Text → World → Outcome Text × World
    select_focused_text_word direction w =
        run_change "Die fehlgeschlagene Wortauswahl konnte nicht zurückgesetzt werden."
          "Die Wortauswahl konnte nicht bestätigt werden." (plan_word_mark direction w) w

    unfoldable pub plan_line_mark : World → Outcome (Text × Option (Change World spi.Node))
    plan_line_mark w = do
      line ← line_context true w
      refuse_if (is_blank line) "Die aktuelle Zeile ist leer und kann nicht ausgewählt werden."
      ok (line.name, some (mark line.node line.name line.caret line.start line.end line.end))

    -- select_focused_text_line
    unfoldable pub select_focused_text_line : World → Outcome Text × World
    select_focused_text_line w =
        run_change "Die fehlgeschlagene Zeilenauswahl konnte nicht zurückgesetzt werden."
          "Die Zeilenauswahl konnte nicht bestätigt werden." (plan_line_mark w) w
