-- ===== src/Desktop/Provider.antt =====
-- The AT-SPI accessibility tree that src/clausis/gnome_adapter.py works on: what the package
-- `pyatspi` tells and does.
use clausis.Prelude.{ℕ, Bool, List, Option}
use clausis.Prelude.Int.{ℤ}
use clausis.Stdlib.{Text}

-- The states that are asked for.
pub data State : Type 0 where
  focused active showing : State

-- A call that reads tells what the desktop holds, or raises (none). A call that writes answers, or
-- raises (none), and leaves a desktop in either case. Nothing else writes between two calls.
pub record AtSpi (World : Type 0) : Type 1 where
  pub Node : Type 0
  -- pyatspi.Registry.getDesktop(0)
  pub desktop : Node
  -- node.childCount, node.getChildAtIndex(index), where a child may be missing
  pub child_count : World → Node → Option ℤ
  pub child_at : World → Node → ℕ → Option (Option Node)
  -- node.name and node.getRoleName(), "" where these are empty or None
  pub node_name : World → Node → Option Text
  pub role_name : World → Node → Option Text
  pub has_state : World → Node → State → Option Bool
  pub attributes : World → Node → Option (List Text)
  -- whether node.queryText() and node.queryEditableText() return
  pub has_text : World → Node → Bool
  pub has_editable_text : World → Node → Bool
  -- text.characterCount, text.caretOffset, text.nSelections, text.getSelection(index)
  pub character_count : World → Node → Option ℤ
  pub caret_offset : World → Node → Option ℤ
  pub selection_count : World → Node → Option ℤ
  pub selection : World → Node → ℕ → Option (ℤ × ℤ)
  -- text.getText(start, end), text.getText(0, -1)
  pub text_between : World → Node → ℕ → ℕ → Option Text
  pub whole_text : World → Node → Option Text
  -- text.setCaretOffset(offset), text.addSelection(start, end), text.removeSelection(index)
  pub set_caret_offset : Node → ℕ → World → Option Bool × World
  pub add_selection : Node → ℕ → ℕ → World → Option Bool × World
  pub remove_selection : Node → ℕ → World → Option Bool × World
  -- editable.insertText(position, value, len(value)), editable.deleteText(start, end),
  -- editable.setTextContents(value)
  pub insert_text : Node → ℕ → Text → World → Option Bool × World
  pub delete_text : Node → ℕ → ℕ → World → Option Bool × World
  pub set_text_contents : Node → Text → World → Option Bool × World
