-- ===== src/Desktop/PlannedLines.antt =====
-- The same for the operations of src/clausis/gnome_adapter.py on the line around the caret.
use clausis.Prelude.{
  ℕ, ◌+◌, Bool, true, false, ◌≡◌, refl, ap, subst, String, Option, some, if◌then◌else◌, length,
  ◌==◌,
}
use clausis.Outcome.{Outcome, ok, ok-injective, ◌>>=◌, >>=-eq-ok}
use clausis.Stdlib.{Stdlib, Text}
use clausis.Desktop.Provider.{AtSpi}
use clausis.Desktop.Field.{refuse_if, or_refuse, direction_of, replaced, is_unspeakable}
use clausis.Desktop.Lines.{LineContext, line_context}
use clausis.Desktop.Edit.{Edit}
use clausis.Desktop.LineEdits.{
  is_blank, Side, side_of, new_contents, with_line, line_snapshot, plan_line_deletion,
  plan_line_replacement, plan_line_insertion, plan_line_duplication,
}
use clausis.Desktop.LineMoves.{
  vertical_of, line_move, line_join, line_split, indentation_of, line_indentation, plan_line_move,
  plan_line_join, plan_line_split, plan_line_indentation,
}
use clausis.Desktop.Snapshot.{or_refuse-ok}
use clausis.Desktop.Safe.{some-injective, StartsFrom}
use clausis.Desktop.Planned.{planned-StartsFrom}
use clausis.Desktop.LineShows.{
  LineShows, line_snapshot-LineShows, new_contents-StartsFrom, with_line-StartsFrom,
  line_move-StartsFrom, line_join-StartsFrom, line_split-StartsFrom, line_indentation-StartsFrom,
  planned-lines,
}

abbrev named :
    {Node : Type 0} → LineContext Node → Outcome (Edit Node) → Outcome (Text × Option (Edit Node))
named line made = do a ← made; ok (line.name, some a)

module _ {World : Type 0} ⦃spi : AtSpi World⦄ ⦃py : Stdlib⦄ where
  -- the part of a plan after the line was accepted
  made_of :
      (w : World) (line : LineContext spi.Node) (settled : Text) (e : Edit spi.Node)
      → line_context true w ≡ ok line
      → (plan : ℕ → Text → Outcome (Edit spi.Node))
      → ((count : ℕ) (previous : Text) (a : Edit spi.Node)
          → LineShows w line previous
          → plan count previous ≡ ok a
          → StartsFrom w a)
      → (message : String)
      → named line (
          or_refuse message
            (line_snapshot w line.node >>= λ (count, previous). plan count previous))
        ≡ ok (settled, some e)
      → StartsFrom w e
  made_of w line settled e context plan kept message h =
      let (a, made, h) =
        >>=-eq-ok
          (or_refuse message
            (line_snapshot w line.node >>= λ (count, previous). plan count previous))
          _ h in
      let made =
        or_refuse-ok message
          (line_snapshot w line.node >>= λ (count, previous). plan count previous) made in
      let ((count, previous), taken, made) = >>=-eq-ok (line_snapshot w line.node) _ made in
      planned-StartsFrom w line.name settled a (some a) e
        (kept count previous a (line_snapshot-LineShows w line count previous context taken) made)
        refl h

  pub plan_line_deletion-StartsFrom :
      (w : World) (settled : Text) (e : Edit spi.Node)
      → plan_line_deletion w ≡ ok (settled, some e)
      → StartsFrom w e
  unfolding plan_line_deletion
  plan_line_deletion-StartsFrom w settled e h =
      let (line, context, h) = >>=-eq-ok (line_context true w) _ h in
      let (_, _, h) = >>=-eq-ok (refuse_if (is_blank line) _) _ h in
      let ((count, previous), taken, h) = >>=-eq-ok (or_refuse _ (line_snapshot w line.node)) _ h in
      subst (StartsFrom w) (some-injective (ap (λ p. p.1) (ok-injective h))) (
        line_snapshot-LineShows w line count previous context
          (or_refuse-ok _ (line_snapshot w line.node) taken))

  pub plan_line_replacement-StartsFrom :
      (value : Text) (w : World) (settled : Text) (e : Edit spi.Node)
      → plan_line_replacement value w ≡ ok (settled, some e)
      → StartsFrom w e
  unfolding plan_line_replacement
  plan_line_replacement-StartsFrom value w settled e h =
      let (_, _, h) = >>=-eq-ok (refuse_if (is_unspeakable value) _) _ h in
      let (line, context, h) = >>=-eq-ok (line_context true w) _ h in
      let (_, _, h) = >>=-eq-ok (refuse_if (is_blank line) _) _ h in
      made_of w line settled e context
        (λ count previous.
          new_contents line previous (replaced line.start line.end value previous)
            (line.start + length value))
        (λ count previous a shows. new_contents-StartsFrom w line previous _ _ a shows) _ h

  pub plan_line_insertion-StartsFrom :
      (direction value : Text) (w : World) (settled : Text) (e : Edit spi.Node)
      → plan_line_insertion direction value w ≡ ok (settled, some e)
      → StartsFrom w e
  unfolding plan_line_insertion
  plan_line_insertion-StartsFrom direction value w settled e h =
      let (side, _, h) = >>=-eq-ok (side_of _ direction) _ h in
      let (_, _, h) = >>=-eq-ok (refuse_if (is_unspeakable value) _) _ h in
      let (line, context, h) = >>=-eq-ok (line_context true w) _ h in
      made_of w line settled e context
        (λ count previous.
          if count == 0
          then new_contents line previous value (length value)
          else with_line line side value previous)
        (λ count previous a shows. either line side previous a shows (count == 0)) _ h
    where
      either :
          (line : LineContext spi.Node) (side : Side) (previous : Text) (a : Edit spi.Node)
          → LineShows w line previous
          → (b : Bool)
          → (if b
              then new_contents line previous value (length value)
              else with_line line side value previous)
            ≡ ok a
          → StartsFrom w a
      either line side previous a shows true = new_contents-StartsFrom w line previous _ _ a shows
      either line side previous a shows false =
          with_line-StartsFrom w line side value previous a shows

  pub plan_line_duplication-StartsFrom :
      (direction : Text) (w : World) (settled : Text) (e : Edit spi.Node)
      → plan_line_duplication direction w ≡ ok (settled, some e)
      → StartsFrom w e
  unfolding plan_line_duplication
  plan_line_duplication-StartsFrom direction w settled e h =
      let (side, _, h) = >>=-eq-ok (side_of _ direction) _ h in
      let (line, context, h) = >>=-eq-ok (line_context true w) _ h in
      let (_, _, h) = >>=-eq-ok (refuse_if (is_blank line) _) _ h in
      made_of w line settled e context (λ count previous. with_line line side line.value previous)
        (λ count previous a shows. with_line-StartsFrom w line side line.value previous a shows) _ h

  pub plan_line_move-StartsFrom :
      (direction : Text) (w : World) (settled : Text) (e : Edit spi.Node)
      → plan_line_move direction w ≡ ok (settled, some e)
      → StartsFrom w e
  unfolding plan_line_move
  plan_line_move-StartsFrom direction w settled e h =
      let (v, _, h) = >>=-eq-ok (vertical_of _ direction) _ h in
      planned-lines _ (λ line. line_move line v) w settled e
        (λ line count previous a shows. line_move-StartsFrom w line v count previous a shows) h

  pub plan_line_join-StartsFrom :
      (direction : Text) (w : World) (settled : Text) (e : Edit spi.Node)
      → plan_line_join direction w ≡ ok (settled, some e)
      → StartsFrom w e
  unfolding plan_line_join
  plan_line_join-StartsFrom direction w settled e h =
      let (d, _, h) = >>=-eq-ok (direction_of _ direction) _ h in
      planned-lines _ (λ line. line_join line d) w settled e
        (λ line count previous a shows. line_join-StartsFrom w line d count previous a shows) h

  pub plan_line_split-StartsFrom :
      (w : World) (settled : Text) (e : Edit spi.Node)
      → plan_line_split w ≡ ok (settled, some e)
      → StartsFrom w e
  unfolding plan_line_split
  plan_line_split-StartsFrom w settled e =
      planned-lines _ line_split w settled e (λ line. line_split-StartsFrom w line)

  pub plan_line_indentation-StartsFrom :
      (direction : Text) (w : World) (settled : Text) (e : Edit spi.Node)
      → plan_line_indentation direction w ≡ ok (settled, some e)
      → StartsFrom w e
  unfolding plan_line_indentation
  plan_line_indentation-StartsFrom direction w settled e h =
      let (i, _, h) = >>=-eq-ok (indentation_of _ direction) _ h in
      planned-lines _ (λ line. line_indentation line i) w settled e
        (λ line count previous a shows. line_indentation-StartsFrom w line i count previous a shows)
        h
