-- ===== src/Router/Commands.antt =====
-- `COMMANDS` of src/clausis/router.py, in its order.
mod Reading
mod Editing
mod Controls
mod Session
mod Magnifier
mod System
use clausis.Prelude.{List, ◌++◌}
use clausis.Router.Builder.{CommandPattern}
use Reading.{reading_commands}
use Editing.{editing_commands}
use Controls.{control_commands}
use Session.{session_commands}
use Magnifier.{magnifier_commands}
use System.{system_commands}

unfoldable pub commands : List CommandPattern
commands =
    reading_commands
    ++ (editing_commands
        ++ (control_commands ++ (session_commands ++ (magnifier_commands ++ system_commands))))
