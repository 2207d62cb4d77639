-- ===== src/Desktop/Snapshot.antt =====
-- What the reads at the start of an operation of src/clausis/gnome_adapter.py have seen when they
-- return.
use clausis.Prelude.{
  ℕ, ◌≤◌, Bool, true, false, not, ◌||◌, ◌≡◌, refl, sym, ap, ◌∙◌, subst, String, [], ◌∷◌, Option,
  none, some, arith, if◌then◌else◌, length, ◌==◌, ==_iff, or_false, ◌&&◌,
}
use clausis.Prelude.Int.{ℤ, pos, negsuc, eq_ℤ, between, pos_part}
use clausis.Outcome.{
  Outcome, ok, raised, value_error, adapter_error, reject_if, ok-injective, ◌>>=◌, >>=-eq-ok,
}
use clausis.Stdlib.{Text}
use clausis.Text.{text_eq}
use clausis.Desktop.Provider.{AtSpi}
use clausis.Desktop.Attempt.{reads, reads_text, holds_text, holds_caret, holds_selections}
use clausis.Desktop.Field.{
  told, bounded, counted, count_within, caret_within, selections_within, snapshot, has_nul,
  refuse_if, or_refuse, or_refuse_other,
}

text_eq_refl : (t : Text) → text_eq t t ≡ true
unfolding text_eq
text_eq_refl [] = refl
text_eq_refl (c ∷ t) = ground (arith, text_eq_refl t)

same_pos : (m k : ℕ) → m ≡ k → eq_ℤ (pos m) (pos k) ≡ true
same_pos m k e = ground arith

told-bounded-reads :
    (o : Option ℤ) (lo hi k : ℕ) → (told o >>= bounded lo hi) ≡ ok k → reads o k ≡ true
told-bounded-reads none lo hi k h = absurd (cc h)
told-bounded-reads (some z) lo hi k h = step z (between (pos lo) z (pos hi)) refl h
  where
    negative : (lo hi m : ℕ) → between (pos lo) (negsuc m) (pos hi) ≡ true → ⊥
    negative lo hi m e = ground arith

    step :
        (z : ℤ) (b : Bool)
        → between (pos lo) z (pos hi) ≡ b
        → (if b then ok (pos_part z) else raised (value_error "invalid metadata")) ≡ ok k
        → eq_ℤ z (pos k) ≡ true
    step z false e h = absurd (cc h)
    step (pos m) true e h = same_pos m k (ok-injective h)
    step (negsuc m) true e h = absurd (negative lo hi m e)

pub told-bounded-within :
    (o : Option ℤ) (lo hi k : ℕ) → (told o >>= bounded lo hi) ≡ ok k → (lo ≤ k) × (k ≤ hi)
told-bounded-within none lo hi k h = absurd (cc h)
told-bounded-within (some z) lo hi k h = step z (between (pos lo) z (pos hi)) refl h
  where
    within : (lo hi m : ℕ) → between (pos lo) (pos m) (pos hi) ≡ true → (lo ≤ m) × (m ≤ hi)
    within lo hi m e = ground arith

    negative : (lo hi m : ℕ) → between (pos lo) (negsuc m) (pos hi) ≡ true → ⊥
    negative lo hi m e = ground arith

    step :
        (z : ℤ) (b : Bool)
        → between (pos lo) z (pos hi) ≡ b
        → (if b then ok (pos_part z) else raised (value_error "invalid metadata")) ≡ ok k
        → (lo ≤ k) × (k ≤ hi)
    step z false e h = absurd (cc h)
    step (pos m) true e h = subst (λ k. (lo ≤ k) × (k ≤ hi)) (ok-injective h) (within lo hi m e)
    step (negsuc m) true e h = absurd (negative lo hi m e)

pub told-reads_text : (o : Option Text) (s t : Text) → told o ≡ ok s → s ≡ t → reads_text o t ≡ true
told-reads_text none s t h e = absurd (cc h)
told-reads_text (some r) s t h e =
    subst (λ t. text_eq r t ≡ true) (ok-injective h ∙ e) (text_eq_refl r)

pub both_true : (a b : Bool) → a ≡ true → b ≡ true → (a && b) ≡ true
both_true a b h g = ground arith

pub told-counted-reads : (o : Option ℤ) (k : ℕ) → (told o >>= counted) ≡ ok k → reads o k ≡ true
told-counted-reads none k h = absurd (cc h)
told-counted-reads (some (pos m)) k h = same_pos m k (ok-injective h)
told-counted-reads (some (negsuc m)) k h = absurd (cc h)

reject_if-ok : (b : Bool) (m : String) → reject_if b m ≡ ok tt → b ≡ false
reject_if-ok true m h = absurd (cc h)
reject_if-ok false m h = refl

pub opposite_true : (b : Bool) → not b ≡ false → b ≡ true
opposite_true b h = ground arith

-- `except Exception` lets only a result through
pub or_refuse-ok :
    {A : Type 0} (m : String) (o : Outcome A) {a : A} → or_refuse m o ≡ ok a → o ≡ ok a
or_refuse-ok m (ok x) h = h
or_refuse-ok m (raised e) h = absurd (cc h)

pub or_refuse_other-ok :
    {A : Type 0} (m : String) (o : Outcome A) {a : A} → or_refuse_other m o ≡ ok a → o ≡ ok a
or_refuse_other-ok m (ok x) h = h
or_refuse_other-ok m (raised (adapter_error s)) h = absurd (cc h)
or_refuse_other-ok m (raised _) h = absurd (cc h)

pub refuse_if-ok : (b : Bool) (m : String) {v : Unit {0}} → refuse_if b m ≡ ok v → b ≡ false
refuse_if-ok true m h = absurd (cc h)
refuse_if-ok false m h = refl

module _ {World : Type 0} ⦃spi : AtSpi World⦄ where
  pub snapshot-holds_text :
      (count : ℕ) (w : World) (n : spi.Node) (t : Text)
      → reads (spi.character_count w n) count ≡ true
      → snapshot count w n ≡ ok t
      → holds_text n t w ≡ true
  unfolding snapshot holds_text
  snapshot-holds_text count w n t counts h =
      let (s, read, h) = >>=-eq-ok (told (spi.text_between w n 0 count)) _ h in
      let (_, complete, h) =
        >>=-eq-ok (reject_if (not (length s == count) || has_nul s) "incomplete snapshot") _ h in
      let (not_short, _) = or_false _ _ (reject_if-ok _ _ complete) in
      step s t (ok-injective h) ((==_iff (length s) count).0 (opposite_true _ not_short)) read
    where
      step :
          (s t : Text)
          → s ≡ t
          → length s ≡ count
          → told (spi.text_between w n 0 count) ≡ ok s
          → (reads (spi.character_count w n) (length t)
              && reads_text (spi.text_between w n 0 (length t)) t)
            ≡ true
      step s t same size read =
          subst
            (λ c.
              (reads (spi.character_count w n) c && reads_text (spi.text_between w n 0 c) t) ≡ true)
            (sym size ∙ ap length same)
            (both_true _ _ counts (told-reads_text (spi.text_between w n 0 count) s t read same))

  pub count_within-reads :
      (lo hi : ℕ) (w : World) (n : spi.Node) (k : ℕ)
      → count_within lo hi w n ≡ ok k
      → reads (spi.character_count w n) k ≡ true
  count_within-reads lo hi w n k = told-bounded-reads (spi.character_count w n) lo hi k

  pub caret_within-holds_caret :
      (count : ℕ) (w : World) (n : spi.Node) (k : ℕ)
      → caret_within count w n ≡ ok k
      → holds_caret n k w ≡ true
  unfolding holds_caret
  caret_within-holds_caret count w n k = told-bounded-reads (spi.caret_offset w n) 0 count k

  pub selections_within-holds_selections :
      (w : World) (n : spi.Node) (k : ℕ)
      → selections_within 0 0 w n ≡ ok k
      → holds_selections n 0 w ≡ true
  unfolding holds_selections
  selections_within-holds_selections w n k h =
      let (_, small) = told-bounded-within (spi.selection_count w n) 0 0 k h in
      subst (λ k. reads (spi.selection_count w n) k ≡ true) (none_of k small)
        (told-bounded-reads (spi.selection_count w n) 0 0 k h)
    where
      none_of : (k : ℕ) → k ≤ 0 → k ≡ 0
      none_of k h = omega arith
