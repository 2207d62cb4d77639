-- ===== src/Desktop/Tree.antt =====
-- The walk through the accessibility tree: `_children`, `_walk`, `_find_state`, `_active_window`,
-- `_role` and `_name` of `PyAtSpiDesktop`.
use clausis.Prelude.{
  ℕ, zero, suc, Bool, false, List, [], ◌∷◌, ◌++◌, Option, none, some, if◌then◌else◌, is_empty,
  filter, ltb, take,
}
use clausis.Prelude.Int.{pos_part}
use clausis.Outcome.{Outcome, ok, raised, adapter_error}
use clausis.Stdlib.{Stdlib, Text}
use clausis.Text.{codes, text_elem, normalize_spaces}
use clausis.Desktop.Provider.{AtSpi, State, active}

abbrev pub max_nodes : ℕ
max_nodes = 2500

abbrev pub max_depth : ℕ
max_depth = 24

-- `x or y` of texts
abbrev pub or_text : Text → Text → Text
or_text s t = if is_empty s then t else s

-- a node with its depth below every child
abbrev deeper {ℓ} : {A : Type ℓ} → ℕ → List A → List (A × ℕ)
deeper d [] = []
deeper d (n ∷ ns) = (n, suc d) ∷ deeper d ns

abbrev only_one : {Node : Type 0} → List Node → Outcome Node
only_one (window ∷ []) = ok window
only_one _ = raised (adapter_error "Das aktive GNOME-Fenster ist nicht eindeutig.")

module _ {World : Type 0} ⦃spi : AtSpi World⦄ where
  -- the children from an index on; an exception ends them
  abbrev children_from : World → spi.Node → ℕ → ℕ → List spi.Node
  children_from w n index zero = []
  children_from w n index (suc left) =
      let rest = children_from w n (suc index) left in
      elim (spi.child_at w n index) [ none ↦ [] | some none ↦ rest | some (some c) ↦ c ∷ rest ]

  -- _children
  unfoldable pub children : World → spi.Node → List spi.Node
  children w n = elim (spi.child_count w n) [
    | none ↦ []
    | some count ↦ children_from w n 0 (pos_part count)
  ]

  -- The nodes that `_walk` yields, from the nodes that are pending and the number it may still visit.
  unfoldable pub walk_from : World → ℕ → List (spi.Node × ℕ) → List spi.Node
  walk_from w zero pending = []
  walk_from w (suc left) [] = []
  walk_from w (suc left) ((n, depth) ∷ pending) =
      let below = if ltb depth max_depth then deeper depth (children w n) else [] in
      n ∷ walk_from w left (below ++ pending)

  -- _walk
  unfoldable pub walk : World → spi.Node → List spi.Node
  walk w root = walk_from w max_nodes ((root, 0) ∷ [])

  -- _has_state
  abbrev pub has_state : World → spi.Node → State → Bool
  has_state w n s = elim (spi.has_state w n s) [ none ↦ false | some b ↦ b ]

  abbrev first_with_state : World → State → List spi.Node → Option spi.Node
  first_with_state w s [] = none
  first_with_state w s (n ∷ ns) =
      let rest = first_with_state w s ns in if has_state w n s then some n else rest

  -- _find_state
  unfoldable pub find_state : World → spi.Node → State → Option spi.Node
  find_state w root s = first_with_state w s (walk w root)

  -- _role
  unfoldable pub role : World → spi.Node → Text
  role w n = elim (spi.role_name w n) [ none ↦ [] | some r ↦ take 80 r ]

  abbrev is_window : World → spi.Node → Bool
  is_window w n = text_elem (role w n) (codes "frame" ∷ codes "dialog" ∷ codes "window" ∷ [])

  abbrev is_active_window : World → spi.Node → Bool
  is_active_window w n = if is_window w n then has_state w n active else false

  abbrev active_windows : World → List spi.Node → List spi.Node
  active_windows w [] = []
  active_windows w (application ∷ applications) =
      filter (is_active_window w) (children w application) ++ active_windows w applications

  -- _active_window; the application is not looked at
  unfoldable pub active_window : World → Outcome spi.Node
  active_window w = only_one (active_windows w (children w spi.desktop))

  module _ ⦃py : Stdlib⦄ where
    -- _name
    unfoldable pub name : World → spi.Node → Text
    name w n = elim (spi.node_name w n) [ none ↦ [] | some s ↦ take 240 (normalize_spaces s) ]
