-- ===== src/Policy/Validators/Parameters.antt =====
-- The validators of src/clausis/policy.py that look at the arguments.
use clausis.Prelude.{
  String, Bool, true, false, ◌&&◌, not, List, [], ◌∷◌, Option, none, some, if◌then◌else◌, leb, ltb,
  is_empty, elem, str_eq, lookup,
}
use clausis.Prelude.Int.{ℤ, pos, negsuc, abs, between}
use clausis.Outcome.{
  Outcome, ok, raised, value_error, type_error, overflow_error, reject_if, ◌>>=◌, ◌>>◌,
}
use clausis.Stdlib.{Stdlib, Text}
use clausis.Text.{codes, normalize_spaces}
use clausis.Models.Value.{
  Value, Dict, bool, int, float, str, arr, obj, float_between, float_overflow,
}
use clausis.Models.Request.{ActionRequest}
use clausis.Policy.Validators.Targets.{accessible_name, is_short_name}

abbrev has_key : String → Dict → Bool
has_key k d = elim (lookup k d) [ none ↦ false | some _ ↦ true ]

abbrev keys_within : List String → Dict → Bool
keys_within ks [] = true
keys_within ks ((k, v) ∷ d) = elem k ks && keys_within ks d

abbrev has_keys : List String → Dict → Bool
has_keys [] d = true
has_keys (k ∷ ks) d = has_key k d && has_keys ks d

-- set(arguments) == {…}
abbrev pub keys_are : List String → Dict → Bool
keys_are ks d = keys_within ks d && has_keys ks d

-- an `int`, no `bool`, in the range
abbrev pub int_within : ℤ → Option Value → ℤ → Bool
int_within lo (some (int n)) hi = between lo n hi
int_within lo _ hi = false

abbrev number_within : ℤ → Option Value → ℤ → Bool
number_within lo (some (int n)) hi = between lo n hi
number_within lo (some (float x)) hi = float_between lo x hi
number_within lo _ hi = false

-- `value not in {…}` for a set of texts: a list or a dictionary cannot be hashed
abbrev choice_of : List String → String → Option Value → Outcome (Unit {0})
choice_of choices message (some (str t)) = reject_if (not (elem t choices)) message
choice_of choices message (some (arr _)) = raised type_error
choice_of choices message (some (obj _)) = raised type_error
choice_of choices message _ = raised (value_error message)

unfoldable pub percentage : ActionRequest → Outcome (Unit {0})
unfolding lookup
percentage r =
    reject_if (not (number_within (pos 0) (lookup "percent" r.arguments) (pos 150)))
      "percent must be between 0 and 150"

-- The common form of the magnifier's validators: no target, one integer in a range, no other key.
abbrev one_integer : String → ℤ → ℤ → String → String → String → ActionRequest → Outcome (Unit {0})
one_integer key lo hi no_target out_of_range only r = do
  reject_if (not (str_eq r.target "")) no_target
  reject_if (not (int_within lo (lookup key r.arguments) hi)) out_of_range
  reject_if (not (keys_are (key ∷ []) r.arguments)) only

unfoldable pub magnifier_percentage : ActionRequest → Outcome (Unit {0})
magnifier_percentage =
    one_integer "percent" (pos 100) (pos 3200) "magnifier zoom accepts no target"
      "magnifier percent must be an integer between 100 and 3200"
      "magnifier zoom accepts only percent"

unfoldable pub magnifier_saturation : ActionRequest → Outcome (Unit {0})
magnifier_saturation =
    one_integer "percent" (pos 0) (pos 100) "magnifier saturation accepts no target"
      "magnifier saturation must be an integer between 0 and 100"
      "magnifier saturation accepts only percent"

-- from -75 to 75
unfoldable pub magnifier_filter_percentage : ActionRequest → Outcome (Unit {0})
magnifier_filter_percentage =
    one_integer "percent" (negsuc 74) (pos 75) "magnifier filter accepts no target"
      "magnifier filter percent must be an integer between -75 and 75"
      "magnifier filter accepts only percent"

unfoldable pub magnifier_cross_hairs_opacity : ActionRequest → Outcome (Unit {0})
magnifier_cross_hairs_opacity =
    one_integer "percent" (pos 0) (pos 100) "magnifier crosshairs opacity accepts no target"
      "magnifier crosshairs opacity must be an integer between 0 and 100"
      "magnifier crosshairs opacity accepts only percent"

unfoldable pub magnifier_cross_hairs_length : ActionRequest → Outcome (Unit {0})
magnifier_cross_hairs_length =
    one_integer "pixels" (pos 20) (pos 4096) "magnifier crosshairs length accepts no target"
      "magnifier crosshairs length must be an integer between 20 and 4096"
      "magnifier crosshairs length accepts only pixels"

unfoldable pub magnifier_cross_hairs_thickness : ActionRequest → Outcome (Unit {0})
magnifier_cross_hairs_thickness =
    one_integer "pixels" (pos 1) (pos 100) "magnifier crosshairs thickness accepts no target"
      "magnifier crosshairs thickness must be an integer between 1 and 100"
      "magnifier crosshairs thickness accepts only pixels"

abbrev channel : String → String → ActionRequest → Outcome (Unit {0})
channel key message r =
    reject_if (not (int_within (pos 0) (lookup key r.arguments) (pos 255))) message

unfoldable pub magnifier_cross_hairs_color : ActionRequest → Outcome (Unit {0})
magnifier_cross_hairs_color r = do
  reject_if (not (str_eq r.target "")) "magnifier crosshairs color accepts no target"
  reject_if (not (keys_are ("red" ∷ "green" ∷ "blue" ∷ []) r.arguments))
      "magnifier crosshairs color accepts only red, green and blue"
  channel "red" "magnifier crosshairs red must be an integer between 0 and 255" r
  channel "green" "magnifier crosshairs green must be an integer between 0 and 255" r
  channel "blue" "magnifier crosshairs blue must be an integer between 0 and 255" r

-- The common form of the validators of one setting with named values.
abbrev one_choice :
    String → List String → String → String → String → ActionRequest → Outcome (Unit {0})
one_choice key choices no_target only invalid r = do
  reject_if (not (str_eq r.target "")) no_target
  reject_if (not (keys_are (key ∷ []) r.arguments)) only
  choice_of choices invalid (lookup key r.arguments)

unfoldable pub magnifier_screen_position : ActionRequest → Outcome (Unit {0})
magnifier_screen_position =
    one_choice "position"
      ("full-screen" ∷ "top-half" ∷ "bottom-half" ∷ "left-half" ∷ "right-half" ∷ [])
      "magnifier screen position accepts no target"
      "magnifier screen position accepts only position" "invalid magnifier screen position"

abbrev tracking_modes : List String
tracking_modes = "none" ∷ "centered" ∷ "proportional" ∷ "push" ∷ []

unfoldable pub magnifier_focus_tracking : ActionRequest → Outcome (Unit {0})
magnifier_focus_tracking =
    one_choice "mode" tracking_modes "magnifier focus tracking accepts no target"
      "magnifier focus tracking accepts only mode" "invalid magnifier focus tracking mode"

unfoldable pub magnifier_caret_tracking : ActionRequest → Outcome (Unit {0})
magnifier_caret_tracking =
    one_choice "mode" tracking_modes "magnifier caret tracking accepts no target"
      "magnifier caret tracking accepts only mode" "invalid magnifier caret tracking mode"

unfoldable pub magnifier_mouse_tracking : ActionRequest → Outcome (Unit {0})
magnifier_mouse_tracking =
    one_choice "mode" tracking_modes "magnifier mouse tracking accepts no target"
      "magnifier mouse tracking accepts only mode" "invalid magnifier mouse tracking mode"

module _ ⦃py : Stdlib⦄ where
  unfoldable pub slider_percentage : ActionRequest → Outcome (Unit {0})
  slider_percentage r = do
    accessible_name r
    reject_if (not (int_within (pos 0) (lookup "percent" r.arguments) (pos 100)))
        "slider percent must be an integer between 0 and 100"
    reject_if (not (keys_are ("percent" ∷ []) r.arguments)) "slider action accepts only percent"

  abbrev is_bool : Option Value → Bool
  is_bool (some (bool _)) = true
  is_bool _ = false

  unfoldable pub checkbox_state : ActionRequest → Outcome (Unit {0})
  checkbox_state r = do
    accessible_name r
    reject_if
        (not (keys_are ("checked" ∷ []) r.arguments && is_bool (lookup "checked" r.arguments)))
        "checkbox action requires one boolean checked argument"

  unfoldable pub radio_name : ActionRequest → Outcome (Unit {0})
  radio_name r = do
    accessible_name r
    reject_if (not (is_empty r.arguments)) "radio action accepts no arguments"

  abbrev item_text : Option Value → Outcome Text
  item_text (some (str t)) = ok (codes t)
  item_text _ = raised (value_error "combo item must be a string")

  unfoldable pub combo_item : ActionRequest → Outcome (Unit {0})
  combo_item r = do
    accessible_name r
    reject_if (not (keys_are ("item" ∷ []) r.arguments)) "combo action requires one item argument"
    item ← item_text (lookup "item" r.arguments)
    reject_if (not (is_short_name 120 (normalize_spaces item)))
        "combo item must be between 1 and 120 printable characters"

  -- `float(value)` of an integer that is too large raises `OverflowError`. Below that the test on
  -- the rounded value is the test on the integer, since 10 ^ 12 is a double.
  abbrev bounded_number : String → Option Value → Outcome (Unit {0})
  bounded_number message (some (int n)) =
      if leb float_overflow (abs n)
      then raised overflow_error
      else reject_if (ltb 1000000000000 (abs n)) message
  bounded_number message (some (float x)) =
      reject_if (not (float_between (negsuc 999999999999) x (pos 1000000000000))) message
  bounded_number message _ = raised (value_error message)

  unfoldable pub spin_value : ActionRequest → Outcome (Unit {0})
  spin_value r = do
    accessible_name r
    reject_if (not (keys_are ("value" ∷ []) r.arguments))
        "spin-button action requires one value argument"
    bounded_number "spin-button value must be a finite bounded number" (lookup "value" r.arguments)
