-- ===== src/Desktop/LineShows.antt =====
-- Every edit that is made of the line around the caret in src/clausis/gnome_adapter.py starts from what
-- the field shows.
use clausis.Prelude.{
  ℕ, ◌+◌, ◌-◌, true, ◌||◌, ◌≡◌, refl, subst, String, some, length, ltb, leb, ◌==◌, take, drop,
}
use clausis.Outcome.{Outcome, ok, ok-injective, reject_if, ◌>>=◌, >>=-eq-ok}
use clausis.Stdlib.{Stdlib, Text}
use clausis.Desktop.Provider.{AtSpi}
use clausis.Desktop.Field.{max_text, refuse_if, or_refuse_other, Direction}
use clausis.Desktop.Lines.{LineContext, line_context, max_line}
use clausis.Desktop.Edit.{Edit}
use clausis.Desktop.LineEdits
use clausis.Desktop.LineEdits.{
  line_edit, is_blank, Side, side_of, deleted_span, line_deletion, new_contents, with_line,
  line_snapshot, plan_line_deletion, plan_line_replacement, plan_line_insertion,
  plan_line_duplication,
}
use clausis.Desktop.LineMoves.{
  first_line, last_line, Vertical, up, down, line_move, too_long, joint, line_join, line_split,
  Indentation, indent, outdent, outdent_width, line_indentation, planned,
}
use clausis.Desktop.Snapshot.{or_refuse_other-ok}
use clausis.Desktop.Restored.{Shows}
use clausis.Desktop.Safe.{IsSafeField, StartsFrom, line_context-ok, line_snapshot-holds_text}
use clausis.Desktop.Planned.{planned-StartsFrom, if_raised}

module _ {World : Type 0} ⦃spi : AtSpi World⦄ ⦃py : Stdlib⦄ where
  -- the line and the text of a safe field that shows them
  abbrev pub LineShows : World → LineContext spi.Node → Text → Type 0
  LineShows w line previous = IsSafeField w line.node × Shows line.node previous line.caret w

  pub line_snapshot-LineShows :
      (w : World) (line : LineContext spi.Node) (count : ℕ) (previous : Text)
      → line_context true w ≡ ok line
      → line_snapshot w line.node ≡ ok (count, previous)
      → LineShows w line previous
  line_snapshot-LineShows w line count previous context taken =
      let (safe, carets, none_selected) = line_context-ok w line context in
      (safe, (line_snapshot-holds_text w line.node count previous taken, carets, none_selected))

  pub new_contents-StartsFrom :
      (w : World) (line : LineContext spi.Node) (previous expected : Text) (k : ℕ)
      (e : Edit spi.Node)
      → LineShows w line previous
      → new_contents line previous expected k ≡ ok e
      → StartsFrom w e
  new_contents-StartsFrom w line previous expected k e shows h =
      subst (StartsFrom w) (ok-injective (if_raised (ltb max_text (length expected)) _ h)) shows

  pub with_line-StartsFrom :
      (w : World) (line : LineContext spi.Node) (side : Side) (value previous : Text)
      (e : Edit spi.Node)
      → LineShows w line previous
      → with_line line side value previous ≡ ok e
      → StartsFrom w e
  with_line-StartsFrom w line LineEdits.above value previous e =
      new_contents-StartsFrom w line previous _ _ e
  with_line-StartsFrom w line LineEdits.below value previous e =
      new_contents-StartsFrom w line previous _ _ e

  pub line_move-StartsFrom :
      (w : World) (line : LineContext spi.Node) (v : Vertical) (count : ℕ) (previous : Text)
      (e : Edit spi.Node)
      → LineShows w line previous
      → line_move line v count previous ≡ ok e
      → StartsFrom w e
  unfolding line_move
  line_move-StartsFrom w line up count previous e shows h =
      let (_, _, h) = >>=-eq-ok (refuse_if (line.start == 0) _) _ h in
      let (_, _, h) = >>=-eq-ok (too_long (last_line (take (line.start - 1) previous))) _ h in
      subst (StartsFrom w) (ok-injective h) shows
  line_move-StartsFrom w line down count previous e shows h =
      let (_, _, h) = >>=-eq-ok (refuse_if (leb count line.end) _) _ h in
      let (_, _, h) = >>=-eq-ok (too_long (first_line (drop (line.end + 1) previous))) _ h in
      subst (StartsFrom w) (ok-injective h) shows

  pub line_join-StartsFrom :
      (w : World) (line : LineContext spi.Node) (d : Direction) (count : ℕ) (previous : Text)
      (e : Edit spi.Node)
      → LineShows w line previous
      → line_join line d count previous ≡ ok e
      → StartsFrom w e
  unfolding line_join
  line_join-StartsFrom w line d count previous e shows h =
      let ((delimiter, adjacent, k), _, h) = >>=-eq-ok (joint line d count previous) _ h in
      let (_, _, h) =
        >>=-eq-ok
          (reject_if
            (ltb max_line (length adjacent)
              || ltb (max_line + max_line) (length line.value + length adjacent))
            _)
          _ h in
      subst (StartsFrom w) (ok-injective h) shows

  pub line_split-StartsFrom :
      (w : World) (line : LineContext spi.Node) (count : ℕ) (previous : Text) (e : Edit spi.Node)
      → LineShows w line previous
      → line_split line count previous ≡ ok e
      → StartsFrom w e
  unfolding line_split
  line_split-StartsFrom w line count previous e shows h =
      let (_, _, h) = >>=-eq-ok (reject_if (leb max_text count) _) _ h in
      subst (StartsFrom w) (ok-injective h) shows

  pub line_indentation-StartsFrom :
      (w : World) (line : LineContext spi.Node) (i : Indentation) (count : ℕ) (previous : Text)
      (e : Edit spi.Node)
      → LineShows w line previous
      → line_indentation line i count previous ≡ ok e
      → StartsFrom w e
  unfolding line_indentation
  line_indentation-StartsFrom w line indent count previous e shows h =
      let (_, _, h) =
        >>=-eq-ok (reject_if (ltb 996 (length line.value) || ltb 99996 count) _) _ h in
      subst (StartsFrom w) (ok-injective h) shows
  line_indentation-StartsFrom w line outdent count previous e shows h =
      let (_, _, h) = >>=-eq-ok (refuse_if (outdent_width line.value == 0) _) _ h in
      subst (StartsFrom w) (ok-injective h) shows

  pub planned-lines :
      (message : String) (plan : LineContext spi.Node → ℕ → Text → Outcome (Edit spi.Node))
      (w : World) (settled : Text) (e : Edit spi.Node)
      → ((line : LineContext spi.Node) (count : ℕ) (previous : Text) (a : Edit spi.Node)
          → LineShows w line previous
          → plan line count previous ≡ ok a
          → StartsFrom w a)
      → planned message plan w ≡ ok (settled, some e)
      → StartsFrom w e
  planned-lines message plan w settled e kept h =
      let (line, context, h) = >>=-eq-ok (line_context true w) _ h in
      let (a, made, h) =
        >>=-eq-ok
          (or_refuse_other message
            (line_snapshot w line.node >>= λ (count, previous). plan line count previous))
          _ h in
      let made =
        or_refuse_other-ok message
          (line_snapshot w line.node >>= λ (count, previous). plan line count previous) made in
      let ((count, previous), taken, made) = >>=-eq-ok (line_snapshot w line.node) _ made in
      planned-StartsFrom w line.name settled a (some a) e
        (kept line count previous a (line_snapshot-LineShows w line count previous context taken)
          made)
        refl h
