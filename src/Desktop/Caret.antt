-- ===== src/Desktop/Caret.antt =====
-- The operations of src/clausis/gnome_adapter.py that move the caret.
use clausis.Prelude.{
  ℕ, ◌+◌, ◌-◌, Bool, true, false, [], ◌∷◌, Option, none, some, if◌then◌else◌, ◌==◌, leb,
}
use clausis.Outcome.{Outcome, ok, ◌>>=◌, ◌>>◌}
use clausis.Stdlib.{Stdlib, Text}
use clausis.Text.{codes, text_elem}
use clausis.Desktop.Provider.{AtSpi}
use clausis.Desktop.Attempt.{Attempt, skip, observed, ◌and_then◌, holds_caret, holds_selections}
use clausis.Desktop.Change.{Change, run_change}
use clausis.Desktop.Field.{
  told_if, or_refuse, or_refuse_other, refuse, text_field, field_name, max_text, count_within,
  caret_within, selections_within, Direction, direction_of, at_edge,
}
use clausis.Desktop.Words.{word_start}
use clausis.Desktop.Lines.{LineContext, line_context}
use clausis.Desktop.Edit.{place_caret}

-- The boundaries of a text that the caret may be put at.
pub data Position : Type 0 where
  first last previous next : Position

abbrev pub position_of : Text → Outcome Position
position_of t =
    if text_elem t (codes "start" ∷ [])
    then ok first
    else if text_elem t (codes "end" ∷ [])
    then ok last
    else if text_elem t (codes "previous" ∷ [])
    then ok previous
    else if text_elem t (codes "next" ∷ [])
    then ok next
    else refuse "Unzulässige Textcursor-Position."

unfoldable pub target_of : Position → ℕ → ℕ → ℕ
target_of first count caret = 0
target_of last count caret = count
target_of previous count caret = caret - 1
target_of next count caret = if leb (caret + 1) count then caret + 1 else count

-- boundary in {"start", "end"}
abbrev pub boundary_of : {Node : Type 0} → Text → Outcome (LineContext Node → ℕ)
boundary_of t =
    if text_elem t (codes "start" ∷ [])
    then ok (λ line. line.start)
    else if text_elem t (codes "end" ∷ [])
    then ok (λ line. line.end)
    else refuse "Unzulässige Zeilengrenze für den Textcursor."

module _ {World : Type 0} ⦃spi : AtSpi World⦄ where
  abbrev pub no_selection : Bool → spi.Node → Attempt World
  no_selection looked n = if looked then observed (holds_selections n 0) else skip

  -- the caret is put at an offset and read there, without a selection where these are looked at
  unfoldable pub caret_at : Bool → spi.Node → ℕ → Attempt World
  caret_at looked n k =
      place_caret n k and_then observed (holds_caret n k) and_then no_selection looked n

  -- the move of the caret, or none where it is there already
  unfoldable pub caret_move : Bool → spi.Node → Text → ℕ → ℕ → Option (Change World spi.Node)
  caret_move looked n fallback caret target =
      if caret == target
      then none
      else some (record {
        node = n;
        fallback = fallback;
        change = caret_at looked n target;
        restore = caret_at looked n caret;
      })

  -- the length of the text and the caret
  abbrev pub metadata_of : World → spi.Node → Outcome (ℕ × ℕ)
  metadata_of w n = do
    told_if (spi.has_text w n)
    count ← count_within 0 max_text w n
    caret ← caret_within count w n
    ok (count, caret)

  module _ ⦃py : Stdlib⦄ where
    -- the caret, and the word's start that it is moved to, or the caret again at the edge
    abbrev pub word_target : Direction → World → spi.Node → Outcome (ℕ × ℕ)
    word_target d w n = do
      told_if (spi.has_text w n)
      count ← count_within 0 max_text w n
      caret ← caret_within count w n
      _ ← selections_within 0 0 w n
      if at_edge d count caret
          then ok (caret, caret)
          else (do target ← word_start d w n count caret; ok (caret, target))

    unfoldable pub plan_caret_move : Text → World → Outcome (Text × Option (Change World spi.Node))
    plan_caret_move position w = do
      p ← position_of position
      n ←
          text_field "Das fokussierte Element ist kein Textfeld."
            "Der Textcursor geschützter Textfelder wird nicht verändert." w
      (count, caret) ←
          or_refuse "Die Textcursor-Position ist nicht sicher prüfbar." (metadata_of w n)
      ok (field_name w n, caret_move false n (codes "Textfeld") caret (target_of p count caret))

    -- move_focused_text_caret
    unfoldable pub move_focused_text_caret : Text → World → Outcome Text × World
    move_focused_text_caret position w =
        run_change "Die fehlgeschlagene Textcursor-Bewegung konnte nicht zurückgesetzt werden."
          "Die Textcursor-Bewegung konnte nicht bestätigt werden." (plan_caret_move position w) w

    unfoldable pub plan_word_move : Text → World → Outcome (Text × Option (Change World spi.Node))
    plan_word_move direction w = do
      d ← direction_of "Unzulässige Richtung für die Wortnavigation." direction
      n ←
          text_field "Das fokussierte Element ist kein Textfeld."
            "Der Textcursor geschützter Textfelder wird nicht verändert." w
      (caret, target) ←
          or_refuse_other
            "Das benachbarte Wort ist innerhalb der sicheren Suchgrenze nicht bestimmbar."
            (word_target d w n)
      ok (field_name w n, caret_move true n (codes "Textfeld") caret target)

    -- move_focused_text_caret_word
    unfoldable pub move_focused_text_caret_word : Text → World → Outcome Text × World
    move_focused_text_caret_word direction w =
        run_change "Die fehlgeschlagene Wortnavigation konnte nicht zurückgesetzt werden."
          "Die Wortnavigation konnte nicht bestätigt werden." (plan_word_move direction w) w

    unfoldable pub plan_line_caret : Text → World → Outcome (Text × Option (Change World spi.Node))
    plan_line_caret boundary w = do
      target ← boundary_of boundary
      line ← line_context true w
      ok (line.name, caret_move true line.node line.name line.caret (target line))

    -- move_focused_text_caret_line
    unfoldable pub move_focused_text_caret_line : Text → World → Outcome Text × World
    move_focused_text_caret_line boundary w =
        run_change "Die fehlgeschlagene Zeilennavigation konnte nicht zurückgesetzt werden."
          "Die Zeilennavigation konnte nicht bestätigt werden." (plan_line_caret boundary w) w
