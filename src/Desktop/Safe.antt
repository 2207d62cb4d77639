-- ===== src/Desktop/Safe.antt =====
-- Where an edit of src/clausis/gnome_adapter.py starts from: the field it was planned for, and what
-- that field showed.
use clausis.Prelude.{
  ℕ, ◌-◌, true, false, not, ◌≡◌, ap, subst, String, List, [], Option, none, some, length,
}
use clausis.Outcome.{ok, ok-injective, ◌>>=◌, >>=-eq-ok}
use clausis.Stdlib.{Stdlib, Text}
use clausis.Text.{text_elem, casefold}
use clausis.Desktop.Provider.{AtSpi, focused}
use clausis.Desktop.Tree.{active_window, find_state, role}
use clausis.Desktop.Attempt.{reads, holds_text, holds_caret, holds_selections}
use clausis.Desktop.Field.{
  told, told_if, counted, count_within, caret_within, selections_within, snapshot, refuse_if,
  refuse, or_refuse, text_field, text_roles, is_secret, max_text,
}
use clausis.Desktop.Lines.{LineContext, line_of, line_context, left_of, right_of}
use clausis.Desktop.TextEdits.{editable_field, whole_field}
use clausis.Desktop.LineEdits.{line_snapshot}
use clausis.Desktop.Edit.{Edit}
use clausis.Desktop.Snapshot.{
  snapshot-holds_text, count_within-reads, caret_within-holds_caret,
  selections_within-holds_selections, told-counted-reads, opposite_true, or_refuse-ok, refuse_if-ok,
}
use clausis.Desktop.Restored.{Shows}

pub some-injective {ℓ} : {A : Type ℓ} {a b : A} → some a ≡ some b → a ≡ b
some-injective {a = a} h = ap (λ o. elim o [ some x ↦ x | none ↦ a ]) h

module _ {World : Type 0} ⦃spi : AtSpi World⦄ ⦃py : Stdlib⦄ where
  editable_field-ok :
      (w : World) (n : spi.Node) (most count caret : ℕ)
      → editable_field w n most ≡ ok (count, caret)
      → (reads (spi.character_count w n) count ≡ true)
        × (holds_caret n caret w ≡ true)
        × (holds_selections n 0 w ≡ true)
  editable_field-ok w n most count caret h =
      let (_, _, h) = >>=-eq-ok (told_if (spi.has_text w n)) _ h in
      let (_, _, h) = >>=-eq-ok (told_if (spi.has_editable_text w n)) _ h in
      let (c, counts, h) = >>=-eq-ok (count_within 0 most w n) _ h in
      let (k, carets, h) = >>=-eq-ok (caret_within c w n) _ h in
      let (z, none_selected, h) = >>=-eq-ok (selections_within 0 0 w n) _ h in
      let pair = ok-injective h in
      (
        subst (λ c. reads (spi.character_count w n) c ≡ true) (ap (λ p. p.0) pair)
            (count_within-reads 0 most w n c counts),
        subst (λ k. holds_caret n k w ≡ true) (ap (λ p. p.1) pair)
            (caret_within-holds_caret c w n k carets),
        selections_within-holds_selections w n z none_selected,
      )

  pub editable_field-Shows :
      (w : World) (n : spi.Node) (most count caret : ℕ) (t : Text)
      → editable_field w n most ≡ ok (count, caret)
      → snapshot count w n ≡ ok t
      → Shows n t caret w
  editable_field-Shows w n most count caret t field taken =
      let (counts, carets, none_selected) = editable_field-ok w n most count caret field in
      (snapshot-holds_text count w n t counts taken, carets, none_selected)

  pub whole_field-Shows :
      (w : World) (n : spi.Node) (count caret : ℕ) (t : Text)
      → whole_field w n ≡ ok (count, (caret, t))
      → Shows n t caret w
  whole_field-Shows w n count caret t h =
      let ((c, k), metadata, h) = >>=-eq-ok (editable_field w n max_text) _ h in
      let (s, taken, h) = >>=-eq-ok (snapshot c w n) _ h in
      subst (λ p. Shows n (p.1) (p.0) w) (ap (λ p. p.1) (ok-injective h))
        (editable_field-Shows w n max_text c k s metadata taken)

  pub line_snapshot-holds_text :
      (w : World) (n : spi.Node) (count : ℕ) (t : Text)
      → line_snapshot w n ≡ ok (count, t)
      → holds_text n t w ≡ true
  line_snapshot-holds_text w n count t h =
      let (_, _, h) = >>=-eq-ok (told_if (spi.has_editable_text w n)) _ h in
      let (c, counts, h) = >>=-eq-ok (told (spi.character_count w n) >>= counted) _ h in
      let (s, taken, h) = >>=-eq-ok (snapshot c w n) _ h in
      subst (λ t. holds_text n t w ≡ true) (ap (λ p. p.1) (ok-injective h))
        (snapshot-holds_text c w n s (told-counted-reads (spi.character_count w n) c counts) taken)

  -- The focused element of the one active window, a text field whose role and attributes name no
  -- secret.
  abbrev pub IsSafeField : World → spi.Node → Type 0
  IsSafeField w n =
      ((window : spi.Node) × (active_window w ≡ ok window) × (find_state w window focused ≡ some n))
      × (text_elem (casefold (role w n)) text_roles ≡ true)
      × ((values : List Text) × (spi.attributes w n ≡ some values)
          × (is_secret (role w n) values ≡ false))

  pub text_field-IsSafeField :
      (no_text_field secret : String) (w : World) (n : spi.Node)
      → text_field no_text_field secret w ≡ ok n
      → IsSafeField w n
  unfolding text_field
  text_field-IsSafeField no_text_field secret w n h =
      let (window, active, h) = >>=-eq-ok (active_window w) _ h in
      let (m, found, h) =
        >>=-eq-ok {A = spi.Node}
          (elim (find_state w window focused) [
            | none ↦ refuse "Kein fokussiertes Textfeld gefunden."
            | some n ↦ ok n
          ])
          _ h in
      let (_, is_text, h) =
        >>=-eq-ok (refuse_if (not (text_elem (casefold (role w m)) text_roles)) no_text_field) _
          h in
      let (values, listed, h) =
        >>=-eq-ok
          (or_refuse "Die Schutzattribute des Textfelds sind nicht prüfbar."
            (told (spi.attributes w m)))
          _ h in
      let (_, no_secret, h) = >>=-eq-ok (refuse_if (is_secret (role w m) values) secret) _ h in
      subst (IsSafeField w) (ok-injective h) (
        (window, active, find_some (find_state w window focused) found),
        opposite_true _ (refuse_if-ok _ _ is_text),
        (
          values,
          told_some (spi.attributes w m) (or_refuse-ok _ (told (spi.attributes w m)) listed),
          refuse_if-ok _ _ no_secret,
        ),
      )
    where
      told_some : {A : Type 0} (o : Option A) {a : A} → told o ≡ ok a → o ≡ some a
      told_some none h = absurd (cc h)
      told_some (some x) h = ap some (ok-injective h)

      find_some :
          (o : Option spi.Node) {m : spi.Node}
          → elim o [ none ↦ refuse "Kein fokussiertes Textfeld gefunden." | some n ↦ ok n ] ≡ ok m
          → o ≡ some m
      find_some none h = absurd (cc h)
      find_some (some x) h = ap some (ok-injective h)

  -- A safe field that shows what the edit takes for the state before it.
  abbrev pub StartsFrom : World → Edit spi.Node → Type 0
  StartsFrom w e = IsSafeField w e.node × Shows e.node e.previous e.caret w

  -- The context of a line without selection names a safe field with its caret.
  pub line_context-ok :
      (w : World) (line : LineContext spi.Node)
      → line_context true w ≡ ok line
      → IsSafeField w line.node
        × (holds_caret line.node line.caret w ≡ true)
        × (holds_selections line.node 0 w ≡ true)
  unfolding line_context line_of
  line_context-ok w line h =
      let (n, field, h) =
        >>=-eq-ok
          (text_field "Das fokussierte Element ist kein lesbares Textfeld."
            "Zeilen geschützter Textfelder werden nicht verarbeitet." w)
          _ h in
      let h = or_refuse-ok _ (line_of true w n) h in
      let (_, _, h) = >>=-eq-ok (told_if (spi.has_text w n)) _ h in
      let (count, _, h) = >>=-eq-ok (count_within 0 max_text w n) _ h in
      let (caret, carets, h) = >>=-eq-ok (caret_within count w n) _ h in
      let (z, none_selected, h) = >>=-eq-ok (selections_within 0 0 w n) _ h in
      let ((start, left), _, h) = >>=-eq-ok (left_of w n caret []) _ h in
      let ((end, right), _, h) = >>=-eq-ok (right_of w n (count - caret) caret (length left)) _ h in
      subst
        (λ line.
          IsSafeField w line.node
          × (holds_caret line.node line.caret w ≡ true)
          × (holds_selections line.node 0 w ≡ true))
        (ok-injective h)
        (
          text_field-IsSafeField _ _ w n field,
          caret_within-holds_caret count w n caret carets,
          selections_within-holds_selections w n z none_selected,
        )
