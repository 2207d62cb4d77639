-- ===== src/Router/Build.antt =====
-- What each builder of src/clausis/router.py makes of a match.
use Prim.Native.String
use Prim.Native.Char.{code}
use clausis.Prelude.{
  ℕ, zero, suc, String, Bool, true, false, [], ◌∷◌, Option, none, some, if◌then◌else◌, lookup,
  str_eq,
}
use clausis.Prelude.Int.{ℤ, pos, negsuc}
use clausis.Outcome.{Outcome, ok, raised, value_error, ◌>>=◌}
use clausis.Stdlib.{Stdlib, Text}
use clausis.Text.{codes, casefold, is_digits, int_of_digits, text_elem, strip}
use clausis.Models.Value.{Dict, int, bool, str, float}
use clausis.Models.Request.{ActionRequest, Risk, low, medium, high, post_init}
use clausis.Router.Builder.{
  Match, Patterns, Builder, request_of, group, keyed, spoken_numbers, magnifier_positions,
  magnifier_modes, cross_hair_colors, Color, color,
}

-- -n
abbrev negative : ℕ → ℤ
negative n = elim n [ zero ↦ pos 0 | suc k ↦ negsuc k ]

abbrev pub comma_to_dot : String → String
comma_to_dot String.[] = ""
comma_to_dot (String.◌∷◌ c s) =
    let rest = comma_to_dot s in
    if str_eq (String.◌∷◌ c String.[]) "," then String.◌++◌ "." rest else String.◌∷◌ c rest

module _ ⦃py : Stdlib⦄ where
  abbrev strip_left : String → String
  strip_left String.[] = ""
  strip_left (String.◌∷◌ c s) =
      let rest = strip_left s in if py.is_space (code c) then rest else String.◌∷◌ c s

  abbrev strip_right : String → String
  strip_right String.[] = ""
  strip_right (String.◌∷◌ c s) =
      let rest = strip_right s in
      if py.is_space (code c)
      then if str_eq rest "" then "" else String.◌∷◌ c rest
      else String.◌∷◌ c rest

  -- match.group("target").strip()
  abbrev pub stripped : String → Match → Outcome String
  stripped name m = do t ← group name m; ok (strip_right (strip_left t))

  -- int(match.group(name))
  abbrev pub number : String → Match → Outcome ℕ
  number name m = do
    t ← group name m
    elim (int_of_digits (codes t)) [
      | none ↦ raised (value_error "invalid literal for int()")
      | some n ↦ ok n
    ]

  -- match.group(name).casefold()
  abbrev pub folded : String → Match → Outcome Text
  folded name m = do t ← group name m; ok (casefold (codes t))

  -- int(value) if value.isdigit() else _SPOKEN_NUMBERS[value]
  abbrev pub spoken_number : Text → Outcome ℕ
  spoken_number value =
      if is_digits value
      then elim (int_of_digits value) [
        | none ↦ raised (value_error "invalid literal for int()")
        | some n ↦ ok n
      ]
      else keyed spoken_numbers value

  abbrev numbered : String → Risk → Bool → Match → Outcome ActionRequest
  numbered action risk reversible m = do
    value ← folded "number" m
    n ← spoken_number value
    post_init (request_of action (py.to_str (int (pos n))) [] risk reversible)

  abbrev targeted_request : String → Dict → Match → Outcome ActionRequest
  targeted_request action arguments m = do
    t ← stripped "target" m
    post_init (request_of action t arguments medium true)

  abbrev untargeted_request : String → Dict → Outcome ActionRequest
  untargeted_request action arguments = post_init (request_of action "" arguments medium true)

  abbrev colored : Color → Outcome ActionRequest
  colored c =
      untargeted_request "accessibility.screen_magnifier.cross_hairs.set_color"
        (("red", int (pos c.red)) ∷ ("green", int (pos c.green)) ∷ ("blue", int (pos c.blue)) ∷ [])

  -- the sign of a filter, "plus" where it was not spoken
  abbrev filter_sign : Option String → Text
  filter_sign none = codes "plus"
  filter_sign (some s) = if str_eq s "" then codes "plus" else strip (casefold (codes s))

  unfoldable pub build : Patterns → Builder → Match → Outcome ActionRequest
  unfolding lookup
  build re (Builder.simple action risk reversible) m =
      post_init (request_of action "" [] risk reversible)
  build re (Builder.targeted action risk reversible) m = do
    t ← stripped "target" m
    post_init (request_of action t [] risk reversible)
  build re Builder.volume m = do
    n ← number "percent" m
    post_init (request_of "audio.volume.set" "" (("percent", int (pos n)) ∷ []) low true)
  build re Builder.control_number m = numbered "desktop.control.activate" medium true m
  build re Builder.notification_number m = numbered "desktop.notifications.dismiss" high false m
  build re Builder.slider m = do
    t ← stripped "target" m
    n ← number "percent" m
    post_init
        (request_of "desktop.slider.set_percent" t (("percent", int (pos n)) ∷ []) medium true)
  build re (Builder.checkbox checked) m =
      targeted_request "desktop.checkbox.set_checked" (("checked", bool checked) ∷ []) m
  build re (Builder.switch enabled) m =
      targeted_request "desktop.switch.set_enabled" (("checked", bool enabled) ∷ []) m
  build re Builder.combo m = do
    t ← stripped "target" m
    item ← stripped "item" m
    post_init (request_of "desktop.combo.select_item" t (("item", str item) ∷ []) medium true)
  build re Builder.spin m = do
    raw ← group "value" m
    t ← stripped "target" m
    elim (re.to_float (comma_to_dot raw)) [
      | none ↦ raised (value_error "could not convert string to float")
      | some x ↦
          post_init
            (request_of "desktop.spin_button.set_value" t (("value", float x) ∷ []) medium true)
    ]
  build re (Builder.permission_decision value) m =
      post_init (request_of "desktop.permission_dialog.decide" value [] medium true)
  build re (Builder.file_dialog_decision value) m =
      post_init (request_of "desktop.file_dialog.decide" value [] medium true)
  build re (Builder.standard_dialog_decision value) m =
      post_init (request_of "desktop.standard_dialog.decide" value [] high false)
  build re Builder.magnifier_screen_position m = do
    key ← folded "position" m
    position ← keyed magnifier_positions key
    untargeted_request "accessibility.screen_magnifier.set_screen_position"
        (("position", str position) ∷ [])
  build re Builder.magnifier_focus_tracking m = do
    key ← folded "mode" m
    mode ← keyed magnifier_modes key
    untargeted_request "accessibility.screen_magnifier.set_focus_tracking" (("mode", str mode) ∷ [])
  build re (Builder.magnifier_tracking action) m = do
    key ← folded "mode" m
    mode ← keyed magnifier_modes key
    untargeted_request action (("mode", str mode) ∷ [])
  build re Builder.magnifier_cross_hairs_named_color m = do
    key ← folded "color" m
    named ← keyed cross_hair_colors key
    colored named
  build re Builder.magnifier_cross_hairs_rgb_color m = do
    red ← number "red" m
    green ← number "green" m
    blue ← number "blue" m
    colored (color red green blue)
  build re (Builder.magnifier_filter action) m = do
    n ← number "percent" m
    let sign = filter_sign (lookup "sign" m)
    let percent =
        if text_elem sign (codes "minus" ∷ codes "negative" ∷ []) then negative n else pos n
    untargeted_request action (("percent", int percent) ∷ [])
  build re (Builder.magnifier_number action key) m = do
    n ← number key m
    untargeted_request action ((key, int (pos n)) ∷ [])
