-- ===== src/Desktop/Reading.antt =====
-- The operations of src/clausis/gnome_adapter.py that read the focused text field.
use clausis.Prelude.{
  ℕ, ◌-◌, ◌||◌, not, String, [], ◌∷◌, ◌++◌, if◌then◌else◌, ◌==◌, leb, ltb, length,
}
use clausis.Outcome.{Outcome, ok, reject_if, ◌>>=◌, ◌>>◌}
use clausis.Stdlib.{Stdlib, Text}
use clausis.Text.{codes, normalize_spaces}
use clausis.Desktop.Provider.{AtSpi}
use clausis.Desktop.Field.{
  told, told_if, or_refuse, refuse_if, text_field, field_name, has_nul, max_text, count_within,
  caret_within, selections_within, span_within, Direction, backward, forward, direction_of, at_edge,
}
use clausis.Desktop.Words.{character_at, word_at}

abbrev pub max_count : ℕ
max_count = 10000000

abbrev spoken_length : ℕ → ℕ
spoken_length count = if leb count 1000 then count else 1000

-- A text that was read is as long as it should be and holds no null character.
abbrev pub complete : String → ℕ → Text → Outcome (Unit {0})
complete message count value = refuse_if (not (length value == count) || has_nul value) message

module _ {World : Type 0} ⦃spi : AtSpi World⦄ ⦃py : Stdlib⦄ where
  -- read_focused_text
  unfoldable pub read_focused_text : World → Outcome (Text × Text)
  read_focused_text w = do
    n ←
        text_field "Das fokussierte Element ist kein lesbares Textfeld."
          "Geschützte Textfelder werden nicht vorgelesen." w
    (count, value) ← or_refuse "Der Inhalt des Textfelds ist nicht sicher lesbar." (do
      told_if (spi.has_text w n)
      count ← count_within 0 max_count w n
      value ← told (spi.text_between w n 0 (spoken_length count))
      ok (count, value))
    let spoken = normalize_spaces value
    ok (field_name w n, if ltb 1000 count then spoken ++ codes " …" else spoken)

  abbrev pub copied : World → spi.Node → Outcome (ℕ × Text)
  copied w n = do
    told_if (spi.has_text w n)
    count ← count_within 1 max_text w n
    value ← told (spi.text_between w n 0 count)
    ok (count, value)

  -- focused_text_for_clipboard
  unfoldable pub focused_text_for_clipboard : World → Outcome (Text × Text)
  focused_text_for_clipboard w = do
    n ←
        text_field "Das fokussierte Element ist kein kopierbares Textfeld."
          "Geschützte Textfelder werden nicht kopiert." w
    (count, value) ← or_refuse "Der Inhalt des Textfelds ist nicht sicher kopierbar." (copied w n)
    complete "Der Textinhalt konnte nicht vollständig gelesen werden." count value
    ok (field_name w n, value)

  -- selected_text_for_clipboard
  unfoldable pub selected_text_for_clipboard : World → Outcome (Text × Text)
  selected_text_for_clipboard w = do
    n ←
        text_field "Das fokussierte Element ist kein auswählbares Textfeld."
          "Aus geschützten Textfeldern wird nicht kopiert." w
    (size, value) ← or_refuse "Es ist keine eindeutige sichere Textauswahl verfügbar." (do
      told_if (spi.has_text w n)
      count ← count_within 1 max_count w n
      _ ← selections_within 1 1 w n
      (start, end) ← span_within 0 1 count w n
      reject_if (ltb max_text (end - start)) "invalid text selection range"
      value ← told (spi.text_between w n start end)
      ok (end - start, value))
    complete "Die Textauswahl konnte nicht vollständig gelesen werden." size value
    ok (field_name w n, value)

  -- focused_text_caret_position
  unfoldable pub focused_text_caret_position : World → Outcome (Text × ℕ × ℕ)
  focused_text_caret_position w = do
    n ←
        text_field "Das fokussierte Element ist kein Textfeld."
          "Die Textcursor-Position geschützter Textfelder wird nicht ausgegeben." w
    (count, caret) ← or_refuse "Die Textcursor-Position ist nicht sicher lesbar." (do
      told_if (spi.has_text w n)
      count ← count_within 0 max_text w n
      caret ← caret_within count w n
      ok (count, caret))
    ok (field_name w n, caret, count)

  abbrev character_beside : Direction → World → spi.Node → ℕ → Outcome Text
  character_beside d w n caret = do
    c ← character_at w n (elim d [ backward ↦ caret - 1 | forward ↦ caret ])
    ok (c ∷ [])

  -- focused_text_character_at_caret
  unfoldable pub focused_text_character_at_caret : Text → World → Outcome (Text × Text)
  focused_text_character_at_caret direction w = do
    d ← direction_of "Unzulässige Richtung für die Zeichenausgabe." direction
    n ←
        text_field "Das fokussierte Element ist kein lesbares Textfeld."
          "Aus geschützten Textfeldern werden keine Zeichen vorgelesen." w
    value ← or_refuse "Das Zeichen ist nicht sicher lesbar." (do
      told_if (spi.has_text w n)
      count ← count_within 0 max_text w n
      caret ← caret_within count w n
      if at_edge d count caret then ok [] else character_beside d w n caret)
    ok (field_name w n, value)

  -- focused_text_word_at_caret
  unfoldable pub focused_text_word_at_caret : Text → World → Outcome (Text × Text)
  focused_text_word_at_caret direction w = do
    d ← direction_of "Unzulässige Richtung für die Wortausgabe." direction
    n ←
        text_field "Das fokussierte Element ist kein lesbares Textfeld."
          "Aus geschützten Textfeldern werden keine Wörter vorgelesen." w
    value ← or_refuse "Das Wort ist innerhalb der sicheren Suchgrenze nicht lesbar." (do
      told_if (spi.has_text w n)
      count ← count_within 0 max_text w n
      caret ← caret_within count w n
      word_at d w n count caret)
    ok (field_name w n, value)
