-- ===== src/Desktop/Inverse.antt =====
-- Line operations of src/clausis/gnome_adapter.py that undo each other.
use clausis.Prelude.{
  ℕ, zero, suc, ◌+◌, ◌-◌, ◌≤◌, max, ◌||◌, ◌≡◌, refl, sym, ap, ◌∙◌, subst, [], ◌∷◌, ◌++◌, arith,
  length, ltb, leb, ◌==◌, drop,
}
use clausis.Outcome.{ok, ok-injective, reject_if, ◌>>◌, >>=-eq-ok}
use clausis.Stdlib.{Text}
use clausis.Desktop.Field.{inserted, cut, max_text, refuse_if, backward}
use clausis.Desktop.Lines.{LineContext, max_line}
use clausis.Desktop.Edit.{Edit, deletion}
use clausis.Desktop.LineEdits.{line_edit}
use clausis.Desktop.LineMoves.{
  joint, line_join, line_split, indent, outdent, four_spaces, leading_spaces, outdent_width,
  line_indentation,
}

drop-append : (s t : Text) → drop (length s) (s ++ t) ≡ t
drop-append [] t = refl
drop-append (c ∷ s) t = drop-append s t

-- What was inserted is cut out again.
cut-inserted :
    (k j : ℕ) (middle t : Text)
    → k ≤ length t
    → j ≡ k + length middle
    → cut k j (inserted k middle t) ≡ t
cut-inserted zero j middle t h e =
    subst (λ j. drop j (middle ++ t) ≡ t) (length_is j (length middle) e) (drop-append middle t)
  where
    length_is : (j n : ℕ) → j ≡ 0 + n → n ≡ j
    length_is j n e = omega arith
cut-inserted (suc k) j middle [] h e = absurd (too_small k h)
  where
    too_small : (k : ℕ) → suc k ≤ 0 → ⊥
    too_small k h = omega arith
cut-inserted (suc k) zero middle (c ∷ t) h e = absurd (too_small k (length middle) e)
  where
    too_small : (k n : ℕ) → 0 ≡ suc k + n → ⊥
    too_small k n h = omega arith
cut-inserted (suc k) (suc j) middle (c ∷ t) h e =
    ap (λ s. c ∷ s) (cut-inserted k j middle t (omega arith) (omega arith))

cut-inserted_at :
    (i j k : ℕ) (middle t : Text)
    → k ≤ length t
    → i ≡ k
    → j ≡ k + length middle
    → cut i j (inserted k middle t) ≡ t
cut-inserted_at i j k middle t h e f =
    subst (λ i. cut i j (inserted k middle t) ≡ t) (sym e) (cut-inserted k j middle t h f)

outdent_width-indented : (value : Text) → outdent_width (four_spaces ++ value) ≡ 4
unfolding outdent_width leading_spaces
outdent_width-indented value = refl

module _ {Node : Type 0} where
  line_split-ok :
      (line : LineContext Node) (count : ℕ) (t : Text) (e : Edit Node)
      → line_split line count t ≡ ok e
      → (e.expected ≡ inserted line.caret (10 ∷ []) t) × (e.expected_caret ≡ line.caret + 1)
  unfolding line_split
  line_split-ok line count t e h =
      let (_, _, h) =
        >>=-eq-ok (reject_if (leb max_text count) "oversized line split snapshot") _ h in
      let same = sym (ok-injective h) in
      (ap (λ e. e.expected) same, ap (λ e. e.expected_caret) same)

  line_join-ok :
      (line : LineContext Node) (count : ℕ) (t : Text) (e : Edit Node)
      → line_join line backward count t ≡ ok e
      → (e.expected ≡ cut (line.start - 1) (line.start - 1 + 1) t)
        × (e.expected_caret ≡ line.caret - 1)
  unfolding line_join
  line_join-ok line count t e h =
      let ((delimiter, adjacent, k), found, h) = >>=-eq-ok (joint line backward count t) _ h in
      let (_, _, h) =
        >>=-eq-ok
          (reject_if
            (ltb max_line (length adjacent)
              || ltb (max_line + max_line) (length line.value + length adjacent))
            _)
          _ h in
      let (_, _, found) = >>=-eq-ok (refuse_if (line.start == 0) _) _ found in
      let same = sym (ok-injective h) in
      let found = sym (ok-injective found) in
      (
        ap (λ e. e.expected) same ∙ ap (λ d. cut d (d + 1) t) (ap (λ p. p.0) found),
        ap (λ e. e.expected_caret) same ∙ ap (λ p. p.2) found,
      )

  -- Joining the line that a split has begun with the one before it plans the text and the caret from
  -- before the split.
  pub line_split-line_join :
      (line next : LineContext Node) (count count' : ℕ) (previous : Text) (split joined : Edit Node)
      → line.caret ≤ length previous
      → line_split line count previous ≡ ok split
      → next.start ≡ split.expected_caret
      → next.caret ≡ split.expected_caret
      → line_join next backward count' split.expected ≡ ok joined
      → (joined.expected ≡ previous) × (joined.expected_caret ≡ line.caret)
  line_split-line_join line next count count' previous split joined within h starts place h' =
      let (text, after) = line_split-ok line count previous split h in
      let (back, before) = line_join-ok next count' split.expected joined h' in
      (
        back
            ∙ (ap (cut (next.start - 1) (next.start - 1 + 1)) text
                ∙ cut-inserted_at (next.start - 1) (next.start - 1 + 1) line.caret (10 ∷ [])
                    previous within (omega arith) (omega arith)),
        before ∙ (ap (λ k. k - 1) (place ∙ after) ∙ omega arith),
      )

  line_indentation-ok :
      (line : LineContext Node) (count : ℕ) (t : Text) (e : Edit Node)
      → line_indentation line indent count t ≡ ok e
      → (e.expected ≡ inserted line.start four_spaces t) × (e.expected_caret ≡ line.caret + 4)
  unfolding line_indentation
  line_indentation-ok line count t e h =
      let (_, _, h) =
        >>=-eq-ok (reject_if (ltb 996 (length line.value) || ltb 99996 count) _) _ h in
      let same = sym (ok-injective h) in
      (ap (λ e. e.expected) same, ap (λ e. e.expected_caret) same)

  -- what outdenting by a width plans
  abbrev Outdents : LineContext Node → Text → Text → ℕ → ℕ → Type 0
  Outdents next text previous caret width =
      (e : Edit Node) × ((do
        refuse_if (width == 0) "Die aktuelle Zeile ist nicht eingerückt."
        ok (
            line_edit next (deletion next.start (next.start + width)) text
              (cut next.start (next.start + width) text) (max next.start (next.caret - width))))
        ≡ ok e)
      × (e.expected ≡ previous)
      × (e.expected_caret ≡ caret)

  -- Outdenting a line that was indented is planned, for the text and the caret from before.
  pub line_indentation_inverse :
      (line next : LineContext Node) (count count' : ℕ) (previous : Text) (indented : Edit Node)
      → line.start ≤ line.caret
      → line.caret ≤ length previous
      → line_indentation line indent count previous ≡ ok indented
      → next.start ≡ line.start
      → next.caret ≡ indented.expected_caret
      → next.value ≡ four_spaces ++ line.value
      → (outdented : Edit Node) × (line_indentation next outdent count' indented.expected
          ≡ ok outdented)
        × (outdented.expected ≡ previous)
        × (outdented.expected_caret ≡ line.caret)
  unfolding line_indentation
  line_indentation_inverse line next count count' previous indented after within h starts place
        value =
      let (text, moved) = line_indentation-ok line count previous indented h in
      let width = ap outdent_width value ∙ outdent_width-indented line.value in
      subst (λ width. Outdents next indented.expected previous line.caret width) (sym width)
        (
          line_edit next (deletion next.start (next.start + 4)) indented.expected
              (cut next.start (next.start + 4) indented.expected) (max next.start (next.caret - 4)),
          refl,
          ap (cut next.start (next.start + 4)) text
              ∙ cut-inserted_at next.start (next.start + 4) line.start four_spaces previous
                  (omega arith) starts (omega arith),
          omega arith,
        )
