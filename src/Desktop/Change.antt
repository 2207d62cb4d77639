-- ===== src/Desktop/Change.antt =====
-- A planned change of the focused text field of src/clausis/gnome_adapter.py, and what becomes of it.
use clausis.Prelude.{String, Option, none, some}
use clausis.Outcome.{Outcome, ok, raised}
use clausis.Stdlib.{Stdlib, Text}
use clausis.Desktop.Provider.{AtSpi}
use clausis.Desktop.Tree.{name, or_text}
use clausis.Desktop.Attempt.{Attempt, commit}

-- The field, its name where it has none, what changes it and observes the change, and what undoes it.
pub record Change (World Node : Type 0) : Type 0 where
  pub node : Node
  pub fallback : Text
  pub change : Attempt World
  pub restore : Attempt World

module _ {World : Type 0} ⦃spi : AtSpi World⦄ ⦃py : Stdlib⦄ where
  -- self._name(focused) or …, at the end of a change
  abbrev pub reported : spi.Node → Text → Outcome (Unit {0}) × World → Outcome Text × World
  reported n fallback (ok _, w) = (ok (or_text (name w n) fallback), w)
  reported n fallback (raised e, w) = (raised e, w)

  -- What becomes of a planned change; a plan of none is a field that stays as it is, for the name
  -- that is then returned.
  unfoldable pub run_change :
      String
      → String
      → Outcome (Text × Option (Change World spi.Node))
      → World
      → Outcome Text × World
  run_change not_restored not_confirmed (raised e) w = (raised e, w)
  run_change not_restored not_confirmed (ok (settled, none)) w = (ok settled, w)
  run_change not_restored not_confirmed (ok (settled, some c)) w =
      reported c.node c.fallback (commit c.change c.restore not_restored not_confirmed w)
