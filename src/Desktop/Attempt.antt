-- ===== src/Desktop/Attempt.antt =====
-- Steps on the desktop that succeed or fail: the `try` blocks in which src/clausis/gnome_adapter.py
-- writes, observes and restores. An exception counts as a failure there.
use clausis.Prelude.{
  ℕ, zero, suc, String, Bool, true, false, ◌&&◌, List, [], ◌∷◌, Option, none, some, if◌then◌else◌,
  length,
}
use clausis.Prelude.Int.{ℤ, pos, pos_part, eq_ℤ}
use clausis.Outcome.{Outcome, ok, raised, adapter_error}
use clausis.Stdlib.{Text}
use clausis.Text.{text_eq}
use clausis.Desktop.Provider.{AtSpi}

abbrev pub reads : Option ℤ → ℕ → Bool
reads none k = false
reads (some z) k = eq_ℤ z (pos k)

abbrev pub reads_text : Option Text → Text → Bool
reads_text none t = false
reads_text (some s) t = text_eq s t

abbrev reads_span : Option (ℤ × ℤ) → ℕ → ℕ → Bool
reads_span none i j = false
reads_span (some (a, b)) i j = eq_ℤ a (pos i) && eq_ℤ b (pos j)

abbrev pub Attempt : Type 0 → Type 0
Attempt World = World → Bool × World

module _ {World : Type 0} where
  -- a call that writes, with an exception as a failure
  unfoldable pub called : (World → Option Bool × World) → Attempt World
  called call w =
      let (answer, w) = call w in (elim answer [ none ↦ false | some accepted ↦ accepted ], w)

  -- nothing is done
  unfoldable pub skip : Attempt World
  skip w = (true, w)

  -- a test of what the desktop tells
  unfoldable pub observed : (World → Bool) → Attempt World
  observed test w = (test w, w)

  infixr 4 ◌and_then◌
  -- `first and second`
  unfoldable pub ◌and_then◌ : Attempt World → Attempt World → Attempt World
  (first and_then second) w =
      let (succeeded, w) = first w in if succeeded then second w else (false, w)

  abbrev undone : String → String → Bool × World → Outcome (Unit {0}) × World
  undone not_restored not_confirmed (restored, w) =
      (raised (adapter_error (if restored then not_confirmed else not_restored)), w)

  -- What a writing operation ends with: nothing to report, or that the change could not be confirmed
  -- and was undone, or that it could not be undone.
  unfoldable pub commit :
      Attempt World → Attempt World → String → String → World → Outcome (Unit {0}) × World
  commit change restore not_restored not_confirmed w =
      let (confirmed, w) = change w in
      if confirmed then (ok tt, w) else undone not_restored not_confirmed (restore w)

  -- a call that writes, of which only an exception is a failure
  unfoldable pub ran : (World → Option Bool × World) → Attempt World
  ran call w = let (answer, w) = call w in (elim answer [ none ↦ false | some accepted ↦ true ], w)

module _ {World : Type 0} ⦃spi : AtSpi World⦄ where
  -- int(text.characterCount) == len(t) and str(text.getText(0, len(t))) == t
  unfoldable pub holds_text : spi.Node → Text → World → Bool
  holds_text n t w =
      reads (spi.character_count w n) (length t) && reads_text (spi.text_between w n 0 (length t)) t

  -- int(text.caretOffset) == k
  unfoldable pub holds_caret : spi.Node → ℕ → World → Bool
  holds_caret n k w = reads (spi.caret_offset w n) k

  -- int(text.nSelections) == k
  unfoldable pub holds_selections : spi.Node → ℕ → World → Bool
  holds_selections n k w = reads (spi.selection_count w n) k

  abbrev spans_hold : spi.Node → ℕ → List (ℕ × ℕ) → World → Bool
  spans_hold n index [] w = true
  spans_hold n index ((i, j) ∷ spans) w =
      reads_span (spi.selection w n index) i j && spans_hold n (suc index) spans w

  -- the selections are exactly the given ones, in their order
  unfoldable pub holds_spans : spi.Node → List (ℕ × ℕ) → World → Bool
  holds_spans n spans w = holds_selections n (length spans) w && spans_hold n 0 spans w

  -- for index in range(k - 1, -1, -1): removeSelection(index)
  abbrev pub remove_down : spi.Node → ℕ → Attempt World
  remove_down n zero w = (true, w)
  remove_down n (suc k) w = (called (spi.remove_selection n k) and_then remove_down n k) w

  -- the same for int(text.nSelections)
  unfoldable pub remove_selections : spi.Node → Attempt World
  remove_selections n w = elim (spi.selection_count w n) [
    | none ↦ (false, w)
    | some k ↦ remove_down n (pos_part k) w
  ]

  unfoldable pub add_selections : spi.Node → List (ℕ × ℕ) → Attempt World
  add_selections n [] w = (true, w)
  add_selections n ((i, j) ∷ spans) w =
      (called (spi.add_selection n i j) and_then add_selections n spans) w
