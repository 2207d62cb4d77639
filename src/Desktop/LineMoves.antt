-- ===== src/Desktop/LineMoves.antt =====
-- The operations of src/clausis/gnome_adapter.py that move, join, split and indent the line around
-- the caret.
use clausis.Prelude.{
  ℕ, zero, suc, ◌+◌, ◌-◌, max, true, ◌||◌, String, [], ◌∷◌, ◌++◌, Option, some, if◌then◌else◌,
  length, ltb, leb, ◌==◌, take, drop,
}
use clausis.Outcome.{Outcome, ok, reject_if, ◌>>=◌, ◌>>◌}
use clausis.Stdlib.{Stdlib, Text}
use clausis.Text.{text_elem, codes}
use clausis.Desktop.Provider.{AtSpi}
use clausis.Desktop.Field.{
  or_refuse_other, refuse_if, refuse, max_text, inserted, cut, Direction, backward, forward,
  direction_of,
}
use clausis.Desktop.Lines.{LineContext, line_context, max_line}
use clausis.Desktop.Edit.{Edit, insertion, deletion, contents, run_edit}
use clausis.Desktop.LineEdits.{line_edit, line_snapshot}

-- s up to its first line break, and s from its last line break on
unfoldable pub first_line : Text → Text
first_line [] = []
first_line (c ∷ s) = let rest = first_line s in if c == 10 then [] else c ∷ rest

unfoldable pub last_line_from : Text → Text → Text
last_line_from line [] = line
last_line_from line (c ∷ s) =
    if c == 10 then last_line_from [] s else last_line_from (line ++ (c ∷ [])) s

abbrev pub last_line : Text → Text
last_line = last_line_from []

pub data Vertical : Type 0 where
  up down : Vertical

abbrev pub vertical_of : String → Text → Outcome Vertical
vertical_of message t =
    if text_elem t (codes "up" ∷ [])
    then ok up
    else if text_elem t (codes "down" ∷ [])
    then ok down
    else refuse message

abbrev pub too_long : Text → Outcome (Unit {0})
too_long adjacent = reject_if (ltb max_line (length adjacent)) "adjacent line is too long"

unfoldable pub line_move :
    {Node : Type 0} → LineContext Node → Vertical → ℕ → Text → Outcome (Edit Node)
line_move line up count previous = do
  refuse_if (line.start == 0) "Oberhalb der aktuellen Zeile gibt es keine Zeile."
  let previous_end = line.start - 1
  let adjacent = last_line (take previous_end previous)
  let previous_start = previous_end - length adjacent
  too_long adjacent
  let expected =
      take previous_start previous ++ (line.value ++ (10 ∷ (adjacent ++ drop line.end previous)))
  ok (
      line_edit line (contents expected) previous expected
        (previous_start + (line.caret - line.start)))
line_move line down count previous = do
  refuse_if (leb count line.end) "Unterhalb der aktuellen Zeile gibt es keine Zeile."
  let next_start = line.end + 1
  let adjacent = first_line (drop next_start previous)
  let next_end = next_start + length adjacent
  too_long adjacent
  let expected =
      take line.start previous ++ (adjacent ++ (10 ∷ (line.value ++ drop next_end previous)))
  ok (
      line_edit line (contents expected) previous expected
        (line.start + length adjacent + 1 + (line.caret - line.start)))

-- The line break that joining takes away, the line on its other side, and the caret then.
abbrev pub joint :
    {Node : Type 0} → LineContext Node → Direction → ℕ → Text → Outcome (ℕ × Text × ℕ)
joint line backward count previous = do
  refuse_if (line.start == 0) "Vor der aktuellen Zeile gibt es keinen Zeilenumbruch."
  let delimiter = line.start - 1
  ok (delimiter, last_line (take delimiter previous), line.caret - 1)
joint line forward count previous = do
  refuse_if (leb count line.end) "Nach der aktuellen Zeile gibt es keinen Zeilenumbruch."
  ok (line.end, first_line (drop (line.end + 1) previous), line.caret)

unfoldable pub line_join :
    {Node : Type 0} → LineContext Node → Direction → ℕ → Text → Outcome (Edit Node)
line_join line d count previous = do
  (delimiter, adjacent, expected_caret) ← joint line d count previous
  reject_if
      (ltb max_line (length adjacent)
        || ltb (max_line + max_line) (length line.value + length adjacent))
      "joined line is too long"
  ok (
      line_edit line (deletion delimiter (delimiter + 1)) previous
        (cut delimiter (delimiter + 1) previous) expected_caret)

unfoldable pub line_split : {Node : Type 0} → LineContext Node → ℕ → Text → Outcome (Edit Node)
line_split line count previous = do
  reject_if (leb max_text count) "oversized line split snapshot"
  ok (
      line_edit line (insertion line.caret (10 ∷ [])) previous
        (inserted line.caret (10 ∷ []) previous) (line.caret + 1))

-- The two directions of the operation on the indentation.
pub data Indentation : Type 0 where
  indent outdent : Indentation

abbrev pub indentation_of : String → Text → Outcome Indentation
indentation_of message t =
    if text_elem t (codes "indent" ∷ [])
    then ok indent
    else if text_elem t (codes "outdent" ∷ [])
    then ok outdent
    else refuse message

abbrev pub four_spaces : Text
four_spaces = codes "    "

-- the number of spaces that a text begins with, up to a bound
unfoldable pub leading_spaces : ℕ → Text → ℕ
leading_spaces zero s = 0
leading_spaces (suc most) [] = 0
leading_spaces (suc most) (c ∷ s) =
    let rest = leading_spaces most s in if c == 32 then suc rest else 0

-- The width that is taken away: one tab, or up to four spaces.
unfoldable pub outdent_width : Text → ℕ
outdent_width [] = 0
outdent_width (c ∷ s) = if c == 9 then 1 else leading_spaces 4 (c ∷ s)

unfoldable pub line_indentation :
    {Node : Type 0} → LineContext Node → Indentation → ℕ → Text → Outcome (Edit Node)
line_indentation line indent count previous = do
  reject_if (ltb 996 (length line.value) || ltb 99996 count)
      "indented line or field would be too long"
  ok (
      line_edit line (insertion line.start four_spaces) previous
        (inserted line.start four_spaces previous) (line.caret + 4))
line_indentation line outdent count previous = do
  let width = outdent_width line.value
  refuse_if (width == 0) "Die aktuelle Zeile ist nicht eingerückt."
  ok (
      line_edit line (deletion line.start (line.start + width)) previous
        (cut line.start (line.start + width) previous) (max line.start (line.caret - width)))

module _ {World : Type 0} ⦃spi : AtSpi World⦄ ⦃py : Stdlib⦄ where
  -- A change of the line without a selection, planned from its context and the text of the field.
  abbrev pub planned :
      String
      → (LineContext spi.Node → ℕ → Text → Outcome (Edit spi.Node))
      → World
      → Outcome (Text × Option (Edit spi.Node))
  planned message plan w = do
    line ← line_context true w
    e ←
        or_refuse_other message
          (do (count, previous) ← line_snapshot w line.node; plan line count previous)
    ok (line.name, some e)

  unfoldable pub plan_line_move : Text → World → Outcome (Text × Option (Edit spi.Node))
  plan_line_move direction w = do
    v ← vertical_of "Unzulässige Richtung für das Verschieben der Zeile." direction
    planned "Die aktuelle Zeile ist nicht sicher verschiebbar." (λ line. line_move line v) w

  -- move_focused_text_line
  unfoldable pub move_focused_text_line : Text → World → Outcome Text × World
  move_focused_text_line direction w =
      run_edit "Das fehlgeschlagene Verschieben der Zeile konnte nicht zurückgesetzt werden."
        "Das Verschieben der Zeile konnte nicht bestätigt werden." (plan_line_move direction w) w

  unfoldable pub plan_line_join : Text → World → Outcome (Text × Option (Edit spi.Node))
  plan_line_join direction w = do
    d ← direction_of "Unzulässige Richtung für das Verbinden der Zeilen." direction
    planned "Die Zeilen sind nicht sicher verbindbar." (λ line. line_join line d) w

  -- join_focused_text_line
  unfoldable pub join_focused_text_line : Text → World → Outcome Text × World
  join_focused_text_line direction w =
      run_edit "Das fehlgeschlagene Verbinden der Zeilen konnte nicht zurückgesetzt werden."
        "Das Verbinden der Zeilen konnte nicht bestätigt werden." (plan_line_join direction w) w

  unfoldable pub plan_line_split : World → Outcome (Text × Option (Edit spi.Node))
  plan_line_split = planned "Die aktuelle Zeile ist nicht sicher teilbar." line_split

  -- split_focused_text_line
  unfoldable pub split_focused_text_line : World → Outcome Text × World
  split_focused_text_line w =
      run_edit "Das fehlgeschlagene Teilen der Zeile konnte nicht zurückgesetzt werden."
        "Das Teilen der Zeile konnte nicht bestätigt werden." (plan_line_split w) w

  unfoldable pub plan_line_indentation : Text → World → Outcome (Text × Option (Edit spi.Node))
  plan_line_indentation direction w = do
    i ← indentation_of "Unzulässige Richtung für die Zeileneinrückung." direction
    planned "Die aktuelle Zeile ist nicht sicher einrückbar." (λ line. line_indentation line i) w

  -- indent_focused_text_line
  unfoldable pub indent_focused_text_line : Text → World → Outcome Text × World
  indent_focused_text_line direction w =
      run_edit "Die fehlgeschlagene Zeileneinrückung konnte nicht zurückgesetzt werden."
        "Die Zeileneinrückung konnte nicht bestätigt werden." (plan_line_indentation direction w) w
