-- ===== src/Broker/Executor.antt =====
-- `Executor` and `SafeExecutor` of src/clausis/broker.py. The processes that it starts belong to the
-- operating system: `World` is their state, and `run` starts one.
use Prim.Native.String
use clausis.Prelude.{
  zero, String, Bool, true, false, List, [], ◌∷◌, ◌++◌, none, some, if◌then◌else◌, elem, lookup,
  map, str_eq,
}
use clausis.Prelude.Int.{ℤ, pos}
use clausis.Outcome.{Outcome, ok, raised, value_error, key_error, ◌>>=◌}
use clausis.Stdlib.{Stdlib}
use clausis.Text.{last_chars}
use clausis.Models.Value.{Value, Items, Dict, int, str, arr, nil, cons}
use clausis.Models.Request.{ActionRequest, ActionResult}
use clausis.Policy.Rule.{ActionPolicy}

-- What the broker needs of an executor: the result and the new state, also where it raises.
pub record Executor (World : Type 0) : Type 0 where
  pub execute : ActionRequest → ActionPolicy → World → Outcome ActionResult × World

abbrev pub Argv : Type 0
Argv = List Value

abbrev argument : String → Dict → Outcome Value
argument key d = elim (lookup key d) [ none ↦ raised key_error | some v ↦ ok v ]

abbrev percent_actions : List String
percent_actions =
    "accessibility.screen_magnifier.set_percent" ∷ "accessibility.screen_magnifier.set_saturation"
    ∷ "accessibility.screen_magnifier.cross_hairs.set_opacity" ∷ []

abbrev pixel_actions : List String
pixel_actions =
    "accessibility.screen_magnifier.cross_hairs.set_length"
    ∷ "accessibility.screen_magnifier.cross_hairs.set_thickness" ∷ []

abbrev filter_actions : List String
filter_actions =
    "accessibility.screen_magnifier.set_brightness" ∷ "accessibility.screen_magnifier.set_contrast"
    ∷ []

abbrev mode_actions : List String
mode_actions =
    "accessibility.screen_magnifier.set_focus_tracking"
    ∷ "accessibility.screen_magnifier.set_caret_tracking"
    ∷ "accessibility.screen_magnifier.set_mouse_tracking" ∷ []

abbrev pub target_actions : List String
target_actions = "app.launch" ∷ "desktop.settings.open" ∷ "file.open" ∷ "file.move_to_trash" ∷ []

module _ ⦃py : Stdlib⦄ where
  -- "#{red:02x}{green:02x}{blue:02x}".format(**arguments)
  abbrev color_text : Dict → Outcome String
  color_text d = do
    red ← argument "red" d
    red ← py.format_hex red
    green ← argument "green" d
    green ← py.format_hex green
    blue ← argument "blue" d
    blue ← py.format_hex blue
    ok (String.◌++◌ "#" (String.◌++◌ red (String.◌++◌ green blue)))

  -- What is appended to the fixed command of the action.
  unfoldable pub appended : ActionRequest → Outcome Argv
  unfolding lookup
  appended r =
      if elem r.action target_actions
      then ok (str r.target ∷ [])
      else if str_eq r.action "audio.volume.set"
      then (do
        v ← argument "percent" r.arguments
        t ← py.format_general v
        ok (str (String.◌++◌ t "%") ∷ []))
      else if elem r.action percent_actions
      then (do v ← argument "percent" r.arguments; t ← py.format_hundredth v; ok (str t ∷ []))
      else if str_eq r.action "accessibility.screen_magnifier.set_screen_position"
      then (do v ← argument "position" r.arguments; ok (v ∷ []))
      else if elem r.action pixel_actions
      then (do v ← argument "pixels" r.arguments; ok (str (py.to_str v) ∷ []))
      else if str_eq r.action "accessibility.screen_magnifier.cross_hairs.set_color"
      then (do t ← color_text r.arguments; ok (str t ∷ []))
      else if elem r.action filter_actions
      then (do v ← argument "percent" r.arguments; t ← py.format_hundredth v; ok (str t ∷ []))
      else if elem r.action mode_actions
      then (do v ← argument "mode" r.arguments; ok (v ∷ []))
      else ok []

  -- SafeExecutor.command_for
  unfoldable pub command_for : ActionRequest → ActionPolicy → Outcome Argv
  command_for r p = elim p.command [
    | none ↦ raised (value_error "action requires a platform adapter")
    | some command ↦ do more ← appended r; ok (map str command ++ more)
  ]

-- A finished process, and the environment variables that are passed on to it.
pub record Completed : Type 0 where
  pub returncode : ℤ
  pub stderr : String

abbrev passed_names : List String
passed_names =
    "DBUS_SESSION_BUS_ADDRESS" ∷ "DISPLAY" ∷ "HOME" ∷ "LANG" ∷ "LC_ALL" ∷ "WAYLAND_DISPLAY"
    ∷ "XDG_RUNTIME_DIR" ∷ []

abbrev passed_on : List String → List (String × String) → List (String × String)
passed_on [] environ = []
passed_on (name ∷ names) environ =
    let rest = passed_on names environ in
    elim (lookup name environ) [ none ↦ rest | some v ↦ (name, v) ∷ rest ]

unfoldable pub child_env : List (String × String) → List (String × String)
unfolding lookup
child_env environ = ("PATH", "/usr/local/bin:/usr/bin:/bin") ∷ passed_on passed_names environ

-- text[-1000:]
abbrev last_thousand : String → String
last_thousand s = last_chars 1000 s

abbrev is_zero : ℤ → Bool
is_zero (pos zero) = true
is_zero _ = false

abbrev argv_items : Argv → Items
argv_items [] = nil
argv_items (v ∷ vs) = cons v (argv_items vs)

abbrev completed_result : ActionRequest → Completed → ActionResult
completed_result r c =
    let success = is_zero c.returncode in
    record {
      status = if success then "completed" else "failed";
      message = if success then "action completed" else "action failed";
      action = r.action;
      confirmation_id = none;
      details = ("returncode", int c.returncode) ∷ ("stderr", str (last_thousand c.stderr)) ∷ [];
    }

module _ ⦃py : Stdlib⦄ {World : Type 0}
    (run : List (String × String) → Argv → World → Outcome Completed × World) where
  abbrev finish : ActionRequest → Outcome Completed × World → Outcome ActionResult × World
  finish r (ok c, w) = (ok (completed_result r c), w)
  finish r (raised e, w) = (raised e, w)

  -- SafeExecutor.execute
  unfoldable pub safe_execute :
      Bool
      → List (String × String)
      → ActionRequest
      → ActionPolicy
      → World
      → Outcome ActionResult × World
  safe_execute dry_run environ r p w = elim (command_for r p) [
    | raised e ↦ (raised e, w)
    | ok argv ↦
        if dry_run
        then (
          ok (record {
            status = "dry_run";
            message = "validated; execution disabled";
            action = r.action;
            confirmation_id = none;
            details = ("argv", arr (argv_items argv)) ∷ [];
          }),
          w,
        )
        else finish r (run (child_env environ) argv w)
  ]

  -- SafeExecutor with its `dry_run`
  abbrev pub safe_executor : Bool → List (String × String) → Executor World
  safe_executor dry_run environ = record { execute = safe_execute dry_run environ }
