-- ===== src/Policy/Table.antt =====
-- `ACTION_POLICIES` of src/clausis/policy.py.
mod Entry
mod Shell
mod TextFields
mod Widgets
mod Accessibility
mod System
use clausis.Prelude.{String, List, ◌++◌}
use clausis.Policy.Rule.{ActionPolicy}
use Shell.{shell_policies}
use TextFields.{text_policies}
use Widgets.{widget_policies}
use Accessibility.{accessibility_policies}
use System.{system_policies}

unfoldable pub action_policies : List (String × ActionPolicy)
action_policies =
    shell_policies
    ++ (text_policies ++ (widget_policies ++ (accessibility_policies ++ system_policies)))
