-- ===== src/Desktop/Session.antt =====
-- `SessionExecutor` of src/clausis/gnome_adapter.py: which executor carries an action out, and what a
-- dry run holds back.
use clausis.Prelude.{
  String, Bool, false, ◌&&◌, not, List, [], ◌∷◌, Option, none, some, if◌then◌else◌, elem,
}
use clausis.Outcome.{Outcome, ok}
use clausis.Models.Request.{ActionRequest, ActionResult}
use clausis.Policy.Rule.{ActionPolicy}
use clausis.Broker.Executor.{Executor}

-- SEMANTIC_ACTIONS
abbrev pub semantic_actions : List String
semantic_actions =
    "desktop.context.describe" ∷ "desktop.controls.list" ∷ "desktop.overview"
    ∷ "desktop.applications" ∷ "desktop.control.activate" ∷ "desktop.control.activate_named"
    ∷ "desktop.focus.next" ∷ "desktop.focus.previous" ∷ "desktop.focus.named"
    ∷ "desktop.text.read_focused" ∷ "desktop.text.set" ∷ "desktop.text.clear"
    ∷ "desktop.text.copy_focused" ∷ "desktop.text.copy_selection" ∷ "desktop.text.read_selection"
    ∷ "desktop.text.select_all" ∷ "desktop.text.clear_selection" ∷ "desktop.text.delete_selection"
    ∷ "desktop.text.insert_at_caret" ∷ "desktop.text.delete_previous_character"
    ∷ "desktop.text.delete_next_character" ∷ "desktop.text.delete_previous_word"
    ∷ "desktop.text.delete_next_word" ∷ "desktop.text.replace_previous_word"
    ∷ "desktop.text.replace_next_word" ∷ "desktop.text.select_previous_character"
    ∷ "desktop.text.select_next_character" ∷ "desktop.text.select_previous_word"
    ∷ "desktop.text.select_next_word" ∷ "desktop.text.select_current_line"
    ∷ "desktop.text.delete_current_line" ∷ "desktop.text.replace_current_line"
    ∷ "desktop.text.insert_line_above" ∷ "desktop.text.insert_line_below"
    ∷ "desktop.text.duplicate_line_above" ∷ "desktop.text.duplicate_line_below"
    ∷ "desktop.text.move_line_up" ∷ "desktop.text.move_line_down"
    ∷ "desktop.text.join_previous_line" ∷ "desktop.text.join_next_line"
    ∷ "desktop.text.split_line_at_caret" ∷ "desktop.text.indent_current_line"
    ∷ "desktop.text.outdent_current_line" ∷ "desktop.text.replace_selection"
    ∷ "desktop.text.read_previous_character" ∷ "desktop.text.read_next_character"
    ∷ "desktop.text.read_previous_word" ∷ "desktop.text.read_next_word"
    ∷ "desktop.text.read_current_line" ∷ "desktop.text.caret_start" ∷ "desktop.text.caret_end"
    ∷ "desktop.text.caret_previous" ∷ "desktop.text.caret_next" ∷ "desktop.text.caret_previous_word"
    ∷ "desktop.text.caret_next_word" ∷ "desktop.text.caret_line_start"
    ∷ "desktop.text.caret_line_end" ∷ "desktop.text.caret_describe" ∷ "desktop.text.paste_focused"
    ∷ "desktop.clipboard.read_text" ∷ "desktop.clipboard.write_text"
    ∷ "desktop.selection.select_named" ∷ "desktop.file_dialog.select_visible"
    ∷ "desktop.file_dialog.set_name" ∷ "desktop.file_dialog.set_location"
    ∷ "desktop.file_dialog.open_visible_folder" ∷ "desktop.file_dialog.decide"
    ∷ "desktop.standard_dialog.decide" ∷ "desktop.standard_dialog.read"
    ∷ "desktop.standard_dialog.dismiss" ∷ "desktop.tree.expand_named"
    ∷ "desktop.tree.collapse_named" ∷ "desktop.table.select_row" ∷ "desktop.tabs.select_named"
    ∷ "desktop.slider.set_percent" ∷ "desktop.progress.read_named" ∷ "desktop.standard_dialog.read"
    ∷ "desktop.checkbox.set_checked" ∷ "desktop.switch.set_enabled" ∷ "desktop.radio.select_named"
    ∷ "desktop.combo.select_item" ∷ "desktop.spin_button.set_value" ∷ "desktop.menu.activate_item"
    ∷ "desktop.permission_dialog.decide" ∷ "desktop.navigate.back" ∷ "desktop.window.next"
    ∷ "desktop.window.previous" ∷ "desktop.window.minimize" ∷ "desktop.window.maximize"
    ∷ "desktop.window.restore" ∷ "desktop.window.close" ∷ "desktop.window.workspace_previous"
    ∷ "desktop.window.workspace_next" ∷ "desktop.quick_settings" ∷ "desktop.notifications"
    ∷ "desktop.notifications.read" ∷ "desktop.notifications.dismiss" ∷ []

-- SEMANTIC_READ_ONLY
abbrev pub semantic_read_only : List String
semantic_read_only =
    "desktop.context.describe" ∷ "desktop.controls.list" ∷ "desktop.text.read_focused"
    ∷ "desktop.text.read_selection" ∷ "desktop.text.read_previous_character"
    ∷ "desktop.text.read_next_character" ∷ "desktop.text.read_previous_word"
    ∷ "desktop.text.read_next_word" ∷ "desktop.text.read_current_line"
    ∷ "desktop.text.caret_describe" ∷ "desktop.clipboard.read_text" ∷ "desktop.progress.read_named"
    ∷ "desktop.notifications.read" ∷ "desktop.standard_dialog.read" ∷ []

-- request.action in SEMANTIC_MUTATIONS
abbrev pub is_semantic_mutation : String → Bool
is_semantic_mutation action = elem action semantic_actions && not (elem action semantic_read_only)

abbrev pub held_back : ActionRequest → ActionResult
held_back r = record {
  status = "dry_run";
  message = "validated semantic action; execution disabled";
  action = r.action;
  confirmation_id = none;
  details = [];
}

-- An executor of commands with its attribute `dry_run`, which it may not have.
pub record CommandExecutor (World : Type 0) : Type 0 where
  pub executor : Executor World
  pub dry_run : Option Bool

-- What `SessionExecutor` is made of: the executor of commands and the one of semantic actions.
pub record SessionExecutor (World : Type 0) : Type 0 where
  pub command_executor : CommandExecutor World
  pub semantic_executor : Executor World

-- getattr(self.command_executor, "dry_run", False)
abbrev pub held : Option Bool → Bool
held none = false
held (some b) = b

module _ {World : Type 0} where
  unfoldable pub session_execute :
      SessionExecutor World → ActionRequest → ActionPolicy → World → Outcome ActionResult × World
  session_execute s r p w =
      if elem r.action semantic_actions
      then if is_semantic_mutation r.action && held s.command_executor.dry_run
        then (ok (held_back r), w)
        else Executor.execute s.semantic_executor r p w
      else Executor.execute s.command_executor.executor r p w

  -- SessionExecutor as the executor of a broker
  abbrev pub session_executor : SessionExecutor World → Executor World
  session_executor s = record { execute = session_execute s }
