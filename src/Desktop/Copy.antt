-- ===== src/Desktop/Copy.antt =====
-- What src/clausis/gnome_adapter.py takes out of a text field for the clipboard.
use clausis.Prelude.{ℕ, ◌≤◌, true, false, ◌&&◌, ◌≡◌, sym, ap, ◌∙◌, subst, length, ==_iff, or_false}
use clausis.Outcome.{ok, ok-injective, >>=-eq-ok}
use clausis.Stdlib.{Stdlib, Text}
use clausis.Desktop.Provider.{AtSpi}
use clausis.Desktop.Attempt.{reads, reads_text, holds_text}
use clausis.Desktop.Field.{told, told_if, or_refuse, text_field, max_text, count_within, has_nul}
use clausis.Desktop.Reading.{focused_text_for_clipboard, copied, complete}
use clausis.Desktop.Snapshot.{
  told-bounded-within, told-reads_text, both_true, count_within-reads, or_refuse-ok, refuse_if-ok,
  opposite_true,
}
use clausis.Desktop.Safe.{IsSafeField, text_field-IsSafeField}

module _ {World : Type 0} ⦃spi : AtSpi World⦄ ⦃py : Stdlib⦄ where
  copied-ok :
      (w : World) (n : spi.Node) (count : ℕ) (s : Text)
      → copied w n ≡ ok (count, s)
      → (1 ≤ count) × (count ≤ 100000) × (length s ≡ count → holds_text n s w ≡ true)
  unfolding holds_text
  copied-ok w n count s h =
      let (_, _, h) = >>=-eq-ok (told_if (spi.has_text w n)) _ h in
      let (c, counts, h) = >>=-eq-ok (count_within 1 max_text w n) _ h in
      let (t, read, h) = >>=-eq-ok (told (spi.text_between w n 0 c)) _ h in
      let same = ok-injective h in
      let (few, many) = told-bounded-within (spi.character_count w n) 1 max_text c counts in
      let shown = count_within-reads 1 max_text w n c counts in
      (
        subst (λ c. 1 ≤ c) (ap (λ p. p.0) same) few,
        subst (λ c. c ≤ 100000) (ap (λ p. p.0) same) many,
        λ size.
            subst
              (λ c.
                (reads (spi.character_count w n) c && reads_text (spi.text_between w n 0 c) s)
                ≡ true)
              (ap (λ p. p.0) same ∙ sym size)
              (both_true _ _ shown
                (told-reads_text (spi.text_between w n 0 c) t s read (ap (λ p. p.1) same))),
      )

  -- The text that is copied is the whole text of the focused text field of the one active window, which
  -- holds no secret; it has from 1 to 100,000 characters and none of them is null.
  pub focused_text_for_clipboard-IsSafeField :
      (w : World) (field value : Text)
      → focused_text_for_clipboard w ≡ ok (field, value)
      → (n : spi.Node) × IsSafeField w n
        × (holds_text n value w ≡ true)
        × (1 ≤ length value)
        × (length value ≤ 100000)
        × (has_nul value ≡ false)
  unfolding focused_text_for_clipboard
  focused_text_for_clipboard-IsSafeField w field value h =
      let (n, safe, h) =
        >>=-eq-ok
          (text_field "Das fokussierte Element ist kein kopierbares Textfeld."
            "Geschützte Textfelder werden nicht kopiert." w)
          _ h in
      let ((count, s), read, h) =
        >>=-eq-ok (or_refuse "Der Inhalt des Textfelds ist nicht sicher kopierbar." (copied w n)) _
          h in
      let (_, whole, h) =
        >>=-eq-ok (complete "Der Textinhalt konnte nicht vollständig gelesen werden." count s) _
          h in
      let (few, many, shown) = copied-ok w n count s (or_refuse-ok _ (copied w n) read) in
      let (size, no_nul) = or_false _ _ (refuse_if-ok _ _ whole) in
      let size = (==_iff (length s) count).0 (opposite_true _ size) in
      let same = ap (λ p. p.1) (ok-injective h) in
      (
        n,
        text_field-IsSafeField _ _ w n safe,
        subst (λ t. holds_text n t w ≡ true) same (shown size),
        subst (λ t. 1 ≤ length t) same (subst (λ k. 1 ≤ k) (sym size) few),
        subst (λ t. length t ≤ 100000) same (subst (λ k. k ≤ 100000) (sym size) many),
        subst (λ t. has_nul t ≡ false) same no_nul,
      )
