-- ===== src/Desktop/Edit.antt =====
-- Changes to the content of a text field: what the operations of src/clausis/gnome_adapter.py that
-- write text do once they have planned a change, and how they undo it.
use clausis.Prelude.{ℕ, Bool, String, Option, none, some, if◌then◌else◌}
use clausis.Outcome.{Outcome, ok, ◌>>=◌}
use clausis.Stdlib.{Stdlib, Text}
use clausis.Desktop.Provider.{AtSpi}
use clausis.Desktop.Change.{Change, run_change}
use clausis.Desktop.Attempt.{
  Attempt, called, skip, observed, ◌and_then◌, holds_text, holds_caret, holds_selections,
  remove_selections,
}

-- editable.insertText, editable.deleteText and editable.setTextContents
pub data Mutation : Type 0 where
  insertion : ℕ → Text → Mutation
  deletion : ℕ → ℕ → Mutation
  contents : Text → Mutation

-- A planned change: what is done, the text and the caret that are there before and expected after,
-- whether the caret is put in its place (or only looked at), and whether undoing takes away the
-- selections that there are then (or only looks for them).
pub record Edit (Node : Type 0) : Type 0 where
  pub node : Node
  pub fallback : Text
  pub mutation : Mutation
  pub previous : Text
  pub caret : ℕ
  pub expected : Text
  pub expected_caret : ℕ
  pub places_caret : Bool
  pub drops_selections : Bool

module _ {World : Type 0} ⦃spi : AtSpi World⦄ where
  abbrev pub mutate : spi.Node → Mutation → World → Option Bool × World
  mutate n (insertion position value) = spi.insert_text n position value
  mutate n (deletion start end) = spi.delete_text n start end
  mutate n (contents value) = spi.set_text_contents n value

  abbrev pub place_caret : spi.Node → ℕ → Attempt World
  place_caret n k = called (spi.set_caret_offset n k)

  abbrev pub set_contents : spi.Node → Text → Attempt World
  set_contents n t = called (spi.set_text_contents n t)

  -- the field holds the text and the caret and has no selection
  abbrev pub is_at : spi.Node → Text → ℕ → Attempt World
  is_at n t k =
      observed (holds_text n t)
      and_then observed (holds_caret n k)
      and_then observed (holds_selections n 0)

  unfoldable pub apply_edit : Edit spi.Node → Attempt World
  apply_edit e =
      called (mutate e.node e.mutation)
      and_then (if e.places_caret then place_caret e.node e.expected_caret else skip)
      and_then is_at e.node e.expected e.expected_caret

  -- restore_previous
  unfoldable pub restore_edit : Edit spi.Node → Attempt World
  restore_edit e =
      set_contents e.node e.previous
      and_then (if e.drops_selections then remove_selections e.node else skip)
      and_then observed (holds_text e.node e.previous)
      and_then place_caret e.node e.caret
      and_then observed (holds_caret e.node e.caret)
      and_then observed (holds_selections e.node 0)

  abbrev pub edit_change : Edit spi.Node → Change World spi.Node
  edit_change e = record {
    node = e.node;
    fallback = e.fallback;
    change = apply_edit e;
    restore = restore_edit e;
  }

  module _ ⦃py : Stdlib⦄ where
    -- what becomes of a planned change of the content
    unfoldable pub run_edit :
        String → String → Outcome (Text × Option (Edit spi.Node)) → World → Outcome Text × World
    unfolding run_change
    run_edit not_restored not_confirmed plan = run_change not_restored not_confirmed (do
      (settled, e) ← plan
      ok (settled, elim e [ none ↦ none | some e ↦ some (edit_change e) ]))
