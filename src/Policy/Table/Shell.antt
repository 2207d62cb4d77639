-- ===== src/Policy/Table/Shell.antt =====
-- The entries of `ACTION_POLICIES` of src/clausis/policy.py for applications, the shell, windows, controls and focus.
use clausis.Prelude.{String, true, false, List, [], ◌∷◌, none, some}
use clausis.Models.Request.{low, medium, high}
use clausis.Policy.Rule.{
  ActionPolicy, accessible_name, control_number, no_parameters, notification_number,
  safe_identifier,
}
use clausis.Policy.Table.Entry.{listed}

abbrev pub shell_policies : List (String × ActionPolicy)
shell_policies =
    ("app.launch", listed low true (some ("gtk-launch" ∷ [])) (some safe_identifier) false)
    ∷ ("app.close", listed medium true none (some safe_identifier) false)
    ∷ ("desktop.overview", listed low true none none false)
    ∷ ("desktop.applications", listed low true none none false)
    ∷ ("desktop.quick_settings", listed low true none none false)
    ∷ ("desktop.notifications", listed low true none none false)
    ∷ ("desktop.notifications.read", listed medium true none (some no_parameters) false)
    ∷ ("desktop.notifications.dismiss", listed high false none (some notification_number) false)
    ∷ ("desktop.window.next", listed low true none none false)
    ∷ ("desktop.window.previous", listed low true none none false)
    ∷ ("desktop.window.minimize", listed low true none none false)
    ∷ ("desktop.window.maximize", listed low true none none false)
    ∷ ("desktop.window.restore", listed low true none none false)
    ∷ ("desktop.window.close", listed medium true none none false)
    ∷ ("desktop.window.workspace_previous", listed medium true none none false)
    ∷ ("desktop.window.workspace_next", listed medium true none none false)
    ∷ ("desktop.context.describe", listed low true none none false)
    ∷ ("desktop.controls.list", listed low true none none false)
    ∷ ("desktop.control.activate", listed medium true none (some control_number) false)
    ∷ ("desktop.control.activate_named", listed medium true none (some accessible_name) false)
    ∷ ("desktop.focus.next", listed low true none none false)
    ∷ ("desktop.focus.previous", listed low true none none false)
    ∷ ("desktop.focus.named", listed low true none (some accessible_name) false)
    ∷ []
