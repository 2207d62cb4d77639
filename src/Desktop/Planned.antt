-- ===== src/Desktop/Planned.antt =====
-- Every edit that an operation of src/clausis/gnome_adapter.py plans starts from a safe field and from
-- what that field shows.
use clausis.Prelude.{
  ℕ, ◌-◌, Bool, true, false, ◌≡◌, refl, sym, ap, ◌∙◌, subst, [], Option, none, some, if◌then◌else◌,
  length, ltb,
}
use clausis.Outcome.{Exception, Outcome, ok, raised, ok-injective, >>=-eq-ok}
use clausis.Stdlib.{Stdlib, Text}
use clausis.Desktop.Provider.{AtSpi}
use clausis.Desktop.Field.{
  text_field, field_name, max_text, snapshot, refuse_if, or_refuse, or_refuse_other, Direction,
  direction_of, at_edge, replaced, is_unspeakable,
}
use clausis.Desktop.Words.{word_span}
use clausis.Desktop.Edit.{Edit, deletion}
use clausis.Desktop.TextEdits.{
  editable_field, whole_field, edited_word, word_deletion, word_edit, text_edit, insertion_of,
  plan_insertion, plan_character_deletion, plan_word_deletion, plan_word_replacement,
  word_replacement,
}
use clausis.Desktop.Snapshot.{or_refuse-ok, or_refuse_other-ok}
use clausis.Desktop.Safe.{
  some-injective, whole_field-Shows, editable_field-Shows, IsSafeField, text_field-IsSafeField,
  StartsFrom,
}

-- What came of a conditional that has one branch without a result.
pub if_some : {A : Type 0} (b : Bool) {a c : A} → (if b then none else some a) ≡ some c → a ≡ c
if_some true h = absurd (cc h)
if_some false h = some-injective h

pub if_ok :
    {A : Type 0} (b : Bool) {o : Outcome (Option A)} {a : A}
    → (if b then ok none else o) ≡ ok (some a)
    → o ≡ ok (some a)
if_ok true h = absurd (cc h)
if_ok false h = h

pub if_raised :
    {A : Type 0} (b : Bool) (x : Exception) {o : Outcome A} {a : A}
    → (if b then raised x else o) ≡ ok a
    → o ≡ ok a
if_raised true x h = absurd (cc h)
if_raised false x h = h

module _ {World : Type 0} ⦃spi : AtSpi World⦄ ⦃py : Stdlib⦄ where
  -- a plan that returns an edit returns that edit
  pub planned-StartsFrom :
      (w : World) (name settled : Text) (a : Edit spi.Node) (o : Option (Edit spi.Node))
      (e : Edit spi.Node)
      → StartsFrom w a
      → o ≡ some a
      → ◌≡◌ {A = Outcome (Text × Option (Edit spi.Node))} (ok (name, o)) (ok (settled, some e))
      → StartsFrom w e
  planned-StartsFrom w name settled a o e from is h =
      subst (StartsFrom w) (some-injective (sym is ∙ ap (λ p. p.1) (ok-injective h))) from

  pub plan_insertion-StartsFrom :
      (value : Text) (w : World) (settled : Text) (e : Edit spi.Node)
      → plan_insertion value w ≡ ok (settled, some e)
      → StartsFrom w e
  unfolding plan_insertion
  plan_insertion-StartsFrom value w settled e h =
      let (_, _, h) =
        >>=-eq-ok
          (refuse_if (is_unspeakable value)
            "Der einzufügende Text muss 1 bis 500 druckbare Zeichen enthalten.")
          _ h in
      let (n, field, h) =
        >>=-eq-ok
          (text_field "Das fokussierte Element ist kein bearbeitbares Textfeld."
            "In geschützte Textfelder wird kein Text eingefügt." w)
          _ h in
      let (a, made, h) =
        >>=-eq-ok
          (or_refuse "Der Textcursor ist nicht sicher zum Einfügen verfügbar."
            (insertion_of value w n))
          _ h in
      let made = or_refuse-ok _ (insertion_of value w n) made in
      let ((count, caret), metadata, made) =
        >>=-eq-ok (editable_field w n (max_text - length value)) _ made in
      let (previous, taken, made) = >>=-eq-ok (snapshot count w n) _ made in
      planned-StartsFrom w (field_name w n) settled a (some a) e
        (subst (StartsFrom w) (ok-injective made) (
          text_field-IsSafeField _ _ w n field,
          editable_field-Shows w n (max_text - length value) count caret previous metadata taken,
        ))
        refl h

  pub plan_character_deletion-StartsFrom :
      (direction : Text) (w : World) (settled : Text) (e : Edit spi.Node)
      → plan_character_deletion direction w ≡ ok (settled, some e)
      → StartsFrom w e
  unfolding plan_character_deletion
  plan_character_deletion-StartsFrom direction w settled e h =
      let (d, _, h) =
        >>=-eq-ok (direction_of "Unzulässige Richtung für das Löschen am Textcursor." direction) _
          h in
      let (n, field, h) =
        >>=-eq-ok
          (text_field "Das fokussierte Element ist kein bearbeitbares Textfeld."
            "Aus geschützten Textfeldern werden keine Zeichen gelöscht." w)
          _ h in
      let ((count, (caret, previous)), read, h) =
        >>=-eq-ok
          (or_refuse "Der Textcursor ist nicht sicher zum Löschen verfügbar." (whole_field w n)) _
          h in
      let shown =
        whole_field-Shows w n count caret previous (or_refuse-ok _ (whole_field w n) read) in
      subst (StartsFrom w) (if_some (at_edge d count caret) (ap (λ p. p.1) (ok-injective h)))
        (text_field-IsSafeField _ _ w n field, shown)

  -- An edit of a word starts from the field if what it makes of the word does.
  word_edit-StartsFrom :
      (edit : ℕ → ℕ → ℕ → Text → Outcome (Edit spi.Node)) (d : Direction) (w : World) (n : spi.Node)
      (e : Edit spi.Node)
      → IsSafeField w n
      → ((caret start end : ℕ) (previous : Text) (a : Edit spi.Node)
          → edit caret start end previous ≡ ok a
          → StartsFrom w (text_edit n (deletion start end) previous caret [] 0)
          → StartsFrom w a)
      → word_edit edit d w n ≡ ok (some e)
      → StartsFrom w e
  word_edit-StartsFrom edit d w n e safe kept h =
      let ((count, caret), metadata, h) = >>=-eq-ok (editable_field w n max_text) _ h in
      let (span, _, h) =
        >>=-eq-ok (word_span d w n count caret) _ (if_ok (at_edge d count caret) h) in
      step count caret metadata span h
    where
      step :
          (count caret : ℕ)
          → editable_field w n max_text ≡ ok (count, caret)
          → (span : Option (ℕ × ℕ)) → edited_word edit w n count caret span ≡ ok (some e)
          → StartsFrom w e
      step count caret metadata none h = absurd (cc h)
      step count caret metadata (some (start, end)) h =
          let (previous, taken, h) = >>=-eq-ok (snapshot count w n) _ h in
          let (a, made, h) = >>=-eq-ok (edit caret start end previous) _ h in
          subst (StartsFrom w) (some-injective (ok-injective h)) (
            kept caret start end previous a made
              (safe, editable_field-Shows w n max_text count caret previous metadata taken))

  pub plan_word_deletion-StartsFrom :
      (direction : Text) (w : World) (settled : Text) (e : Edit spi.Node)
      → plan_word_deletion direction w ≡ ok (settled, some e)
      → StartsFrom w e
  unfolding plan_word_deletion
  plan_word_deletion-StartsFrom direction w settled e h =
      let (d, _, h) =
        >>=-eq-ok (direction_of "Unzulässige Richtung für die Wortlöschung." direction) _ h in
      let (n, field, h) =
        >>=-eq-ok
          (text_field "Das fokussierte Element ist kein bearbeitbares Textfeld."
            "Aus geschützten Textfeldern werden keine Wörter gelöscht." w)
          _ h in
      let (o, made, h) =
        >>=-eq-ok
          (or_refuse_other
            "Das benachbarte Wort ist innerhalb der sicheren Suchgrenze nicht löschbar."
            (word_edit (word_deletion d n) d w n))
          _ h in
      word_edit-StartsFrom (word_deletion d n) d w n e (text_field-IsSafeField _ _ w n field)
        (λ caret start end previous a made from. subst (StartsFrom w) (ok-injective made) from)
        (or_refuse_other-ok _ (word_edit (word_deletion d n) d w n) made
          ∙ ap ok (ap (λ p. p.1) (ok-injective h)))

  pub plan_word_replacement-StartsFrom :
      (direction value : Text) (w : World) (settled : Text) (e : Edit spi.Node)
      → plan_word_replacement direction value w ≡ ok (settled, some e)
      → StartsFrom w e
  unfolding plan_word_replacement
  plan_word_replacement-StartsFrom direction value w settled e h =
      let (d, _, h) =
        >>=-eq-ok (direction_of "Unzulässige Richtung für den Wortersatz." direction) _ h in
      let (_, _, h) =
        >>=-eq-ok
          (refuse_if (is_unspeakable value)
            "Der Wortersatz muss 1 bis 500 druckbare Zeichen enthalten.")
          _ h in
      let (n, field, h) =
        >>=-eq-ok
          (text_field "Das fokussierte Element ist kein bearbeitbares Textfeld."
            "Wörter in geschützten Textfeldern werden nicht ersetzt." w)
          _ h in
      let (o, made, h) =
        >>=-eq-ok
          (or_refuse_other
            "Das benachbarte Wort ist innerhalb der sicheren Suchgrenze nicht ersetzbar."
            (word_edit (word_replacement value n) d w n))
          _ h in
      word_edit-StartsFrom (word_replacement value n) d w n e (text_field-IsSafeField _ _ w n field)
        (λ caret start end previous a made from.
          subst (StartsFrom w)
            (ok-injective
              (if_raised (ltb max_text (length (replaced start end value previous))) _ made))
            from)
        (or_refuse_other-ok _ (word_edit (word_replacement value n) d w n) made
          ∙ ap ok (ap (λ p. p.1) (ok-injective h)))
