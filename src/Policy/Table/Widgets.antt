-- ===== src/Policy/Table/Widgets.antt =====
-- The entries of `ACTION_POLICIES` of src/clausis/policy.py for dialogs, widgets, the clipboard and settings.
use clausis.Prelude.{String, true, false, List, [], ◌∷◌, none, some}
use clausis.Models.Request.{low, medium, high}
use clausis.Policy.Rule.{
  ActionPolicy, accessible_name, canonical_absolute_path, checkbox_state, combo_item,
  file_dialog_decision, no_parameters, permission_decision, radio_name, setting, slider_percentage,
  spin_value, spoken_text, standard_dialog_decision, visible_file_name,
}
use clausis.Policy.Table.Entry.{listed}

abbrev pub widget_policies : List (String × ActionPolicy)
widget_policies =
    ("desktop.selection.select_named", listed medium true none (some accessible_name) false)
    ∷ ("desktop.file_dialog.select_visible", listed medium true none (some visible_file_name) false)
    ∷ ("desktop.file_dialog.set_name", listed medium true none (some visible_file_name) false)
    ∷ (
      "desktop.file_dialog.set_location",
      listed medium true none (some canonical_absolute_path) false,
    )
    ∷ (
      "desktop.file_dialog.open_visible_folder",
      listed medium true none (some visible_file_name) false,
    )
    ∷ ("desktop.file_dialog.decide", listed medium true none (some file_dialog_decision) false)
    ∷ (
      "desktop.standard_dialog.decide",
      listed high false none (some standard_dialog_decision) false,
    )
    ∷ ("desktop.standard_dialog.read", listed medium true none (some no_parameters) false)
    ∷ ("desktop.standard_dialog.dismiss", listed high false none (some no_parameters) false)
    ∷ ("desktop.tree.expand_named", listed medium true none (some accessible_name) false)
    ∷ ("desktop.tree.collapse_named", listed medium true none (some accessible_name) false)
    ∷ ("desktop.table.select_row", listed medium true none (some accessible_name) false)
    ∷ ("desktop.tabs.select_named", listed medium true none (some accessible_name) false)
    ∷ ("desktop.slider.set_percent", listed medium true none (some slider_percentage) false)
    ∷ ("desktop.progress.read_named", listed low true none (some accessible_name) false)
    ∷ ("desktop.checkbox.set_checked", listed medium true none (some checkbox_state) false)
    ∷ ("desktop.switch.set_enabled", listed medium true none (some checkbox_state) false)
    ∷ ("desktop.radio.select_named", listed medium true none (some radio_name) false)
    ∷ ("desktop.combo.select_item", listed medium true none (some combo_item) false)
    ∷ ("desktop.spin_button.set_value", listed medium true none (some spin_value) false)
    ∷ ("desktop.menu.activate_item", listed medium true none (some accessible_name) false)
    ∷ ("desktop.permission_dialog.decide", listed medium true none (some permission_decision) false)
    ∷ ("desktop.navigate.back", listed low true none none false)
    ∷ (
      "desktop.clipboard.clear",
      listed medium false (some ("wl-copy" ∷ "--clear" ∷ [])) (some no_parameters) false,
    )
    ∷ ("desktop.clipboard.read_text", listed medium true none (some no_parameters) false)
    ∷ ("desktop.clipboard.write_text", listed medium false none (some spoken_text) false)
    ∷ (
      "desktop.settings.open",
      listed low true (some ("gnome-control-center" ∷ [])) (some setting) false,
    )
    ∷ []
