-- ===== src/Desktop/Lines.antt =====
-- `_focused_text_line_context` of src/clausis/gnome_adapter.py: the line around the caret.
use clausis.Prelude.{
  ℕ, zero, suc, ◌+◌, ◌-◌, Bool, false, [], ◌∷◌, ◌++◌, if◌then◌else◌, ◌==◌, ltb, length,
}
use clausis.Outcome.{Outcome, ok, reject_if, ◌>>=◌, ◌>>◌}
use clausis.Stdlib.{Stdlib, Text}
use clausis.Desktop.Provider.{AtSpi}
use clausis.Desktop.Field.{
  told_if, or_refuse, text_field, field_name, max_text, count_within, caret_within,
  selections_within,
}
use clausis.Desktop.Words.{character_at}

abbrev pub max_line : ℕ
max_line = 1000

-- The line that holds the caret: its text, where it starts and ends, and the caret.
pub record LineContext (Node : Type 0) : Type 0 where
  pub node : Node
  pub name : Text
  pub value : Text
  pub start : ℕ
  pub end : ℕ
  pub caret : ℕ

abbrev too_long : Text → Text → Outcome (Unit {0})
too_long left right = reject_if (ltb max_line (length left + length right)) "line is too long"

module _ {World : Type 0} ⦃spi : AtSpi World⦄ where
  -- the characters to the left of an index up to the line break, and the index where they start
  unfoldable pub left_of : World → spi.Node → ℕ → Text → Outcome (ℕ × Text)
  left_of w n zero found = ok (0, found)
  left_of w n (suc index) found = do
    c ← character_at w n index
    if c == 10
        then ok (suc index, found)
        else (do too_long (c ∷ found) []; left_of w n index (c ∷ found))

  -- the characters to the right, of which `rest` are left, and the index where they end; with the
  -- ones before them, the last one first
  unfoldable pub right_of : World → spi.Node → ℕ → ℕ → ℕ → Outcome (ℕ × Text)
  right_of w n zero index line = ok (index, [])
  right_of w n (suc rest) index line = do
    c ← character_at w n index
    if c == 10 then ok (index, []) else (do
      reject_if (ltb max_line (suc line)) "line is too long"
      (end, more) ← right_of w n rest (suc index) (suc line)
      ok (end, c ∷ more))

  module _ ⦃py : Stdlib⦄ where
    -- the line of a field whose metadata is within its bounds
    unfoldable pub line_of : Bool → World → spi.Node → Outcome (LineContext spi.Node)
    line_of alone w n = do
      told_if (spi.has_text w n)
      count ← count_within 0 max_text w n
      caret ← caret_within count w n
      _ ← selections_within 0 (if alone then 0 else 64) w n
      (start, left) ← left_of w n caret []
      (end, right) ← right_of w n (count - caret) caret (length left)
      ok (record {
        node = n;
        name = field_name w n;
        value = left ++ right;
        start = start;
        end = end;
        caret = caret;
      })

    -- _focused_text_line_context(require_no_selection = alone)
    unfoldable pub line_context : Bool → World → Outcome (LineContext spi.Node)
    line_context alone w = do
      n ←
          text_field "Das fokussierte Element ist kein lesbares Textfeld."
            "Zeilen geschützter Textfelder werden nicht verarbeitet." w
      or_refuse "Die aktuelle Zeile ist nicht sicher bestimmbar." (line_of alone w n)

    -- focused_text_line_at_caret
    unfoldable pub focused_text_line_at_caret : World → Outcome (Text × Text)
    focused_text_line_at_caret w = do line ← line_context false w; ok (line.name, line.value)
