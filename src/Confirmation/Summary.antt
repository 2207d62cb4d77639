-- ===== src/Confirmation/Summary.antt =====
-- `TrustedConfirmer.canonical_summary` of src/clausis/confirmation.py: what is spoken to the user.
mod TextTargets
mod OtherTargets
use Prim.Native.String
use TextTargets.{text_targets}
use OtherTargets.{other_targets}
use clausis.Prelude.{
  String, Bool, true, false, List, [], ◌∷◌, ◌++◌, Option, none, some, if◌then◌else◌, str_eq, elem,
  lookup,
}
use clausis.Outcome.{Outcome, ok, raised, key_error, type_error, ◌>>=◌, ◌>>◌}
use clausis.Stdlib.{Stdlib}
use clausis.Models.Value.{Value, Dict, str, arr, obj}
use clausis.Models.Request.{ActionRequest, risk_value}

-- the pieces of an f-string
abbrev concat : List String → String
concat [] = ""
concat (s ∷ []) = s
concat (s ∷ (t ∷ ts)) = String.◌++◌ s (concat (t ∷ ts))

abbrev argument : String → Dict → Outcome Value
argument key d = elim (lookup key d) [ none ↦ raised key_error | some v ↦ ok v ]

-- names[arguments[key]]
abbrev named : List (String × String) → Outcome Value → Outcome String
named names (raised e) = raised e
named names (ok (str t)) = elim (lookup t names) [ none ↦ raised key_error | some n ↦ ok n ]
named names (ok (arr _)) = raised type_error
named names (ok (obj _)) = raised type_error
named names (ok _) = raised key_error

abbrev positions : List (String × String)
positions =
    ("full-screen", "Vollbild")
    ∷ ("top-half", "die obere Bildschirmhälfte")
    ∷ ("bottom-half", "die untere Bildschirmhälfte")
    ∷ ("left-half", "die linke Bildschirmhälfte")
    ∷ ("right-half", "die rechte Bildschirmhälfte")
    ∷ []

abbrev modes : List (String × String)
modes =
    ("none", "aus")
    ∷ ("centered", "zentriert")
    ∷ ("proportional", "proportional")
    ∷ ("push", "schiebend")
    ∷ []

-- fixed_targets.get(request.action, request.target or "das System")
unfoldable pub fixed_target : ActionRequest → String
unfolding lookup
fixed_target r = elim (lookup r.action (text_targets ++ other_targets)) [
  | some t ↦ t
  | none ↦ if str_eq r.target "" then "das System" else r.target
]

abbrev is_filter : String → Bool
is_filter action = elem action (
    "accessibility.screen_magnifier.set_brightness" ∷ "accessibility.screen_magnifier.set_contrast"
    ∷ [])

abbrev is_pointer_tracking : String → Bool
is_pointer_tracking action = elem action (
    "accessibility.screen_magnifier.set_caret_tracking"
    ∷ "accessibility.screen_magnifier.set_mouse_tracking" ∷ [])

module _ ⦃py : Stdlib⦄ where
  -- f"{before}{arguments[key]}{after}"
  abbrev with_number : String → String → String → Dict → Outcome String
  with_number before key after d = do
    v ← argument key d
    ok (concat (before ∷ py.to_str v ∷ after ∷ []))

  abbrev with_name : String → List (String × String) → String → String → Dict → Outcome String
  with_name before names key after d = do
    n ← named names (argument key d)
    ok (concat (before ∷ n ∷ after ∷ []))

  abbrev filter_target : ActionRequest → Outcome String
  filter_target r = do
    v ← argument "percent" r.arguments
    signed ← py.format_signed v
    let feature : String =
        if str_eq r.action "accessibility.screen_magnifier.set_brightness"
        then "Helligkeit"
        else "Kontrast"
    ok (
        concat
          (feature ∷ " der GNOME-Bildschirmvergrößerung auf " ∷ signed ∷ " Prozent setzen" ∷ []))

  abbrev color_target : Dict → Outcome String
  color_target d = do
    red ← argument "red" d
    green ← argument "green" d
    blue ← argument "blue" d
    ok (
        concat (
          "die Farbe des Lupen-Fadenkreuzes auf RGB "
          ∷ py.to_str red
          ∷ ", "
          ∷ py.to_str green
          ∷ ", "
          ∷ py.to_str blue
          ∷ " setzen"
          ∷ []))

  unfoldable pub spoken_target : ActionRequest → Outcome String
  unfolding fixed_target lookup
  spoken_target r =
      if str_eq r.action "accessibility.screen_magnifier.set_percent"
      then with_number "die GNOME-Bildschirmvergrößerung auf " "percent" " Prozent" r.arguments
      else if str_eq r.action "accessibility.screen_magnifier.set_saturation"
      then with_number "die Farbsättigung der GNOME-Bildschirmvergrößerung auf " "percent"
          " Prozent" r.arguments
      else if is_filter r.action
      then filter_target r
      else if str_eq r.action "accessibility.screen_magnifier.set_screen_position"
      then with_name "die GNOME-Bildschirmvergrößerung auf " positions "position" " begrenzen"
          r.arguments
      else if str_eq r.action "accessibility.screen_magnifier.cross_hairs.set_opacity"
      then with_number "die Deckkraft des Lupen-Fadenkreuzes auf " "percent" " Prozent" r.arguments
      else if str_eq r.action "accessibility.screen_magnifier.cross_hairs.set_length"
      then with_number "die Länge des Lupen-Fadenkreuzes auf " "pixels" " Pixel" r.arguments
      else if str_eq r.action "accessibility.screen_magnifier.cross_hairs.set_thickness"
      then with_number "die Dicke des Lupen-Fadenkreuzes auf " "pixels" " Pixel" r.arguments
      else if str_eq r.action "accessibility.screen_magnifier.cross_hairs.set_color"
      then color_target r.arguments
      else if str_eq r.action "accessibility.screen_magnifier.set_focus_tracking"
      then with_name "die Fokusverfolgung der GNOME-Bildschirmvergrößerung auf " modes "mode"
          " setzen" r.arguments
      else if is_pointer_tracking r.action
      then with_name
          (concat (
            "die "
            ∷ (if str_eq r.action "accessibility.screen_magnifier.set_caret_tracking"
                then "Textcursorverfolgung"
                else "Mausverfolgung")
            ∷ " der GNOME-Bildschirmvergrößerung auf "
            ∷ []))
          modes "mode" " setzen" r.arguments
      else ok (fixed_target r)

  -- The summary of a request with its challenge phrase.
  unfoldable pub canonical_summary : ActionRequest → String → Outcome String
  canonical_summary r phrase = do
    target ← spoken_target r
    ok (
        concat (
          "Geplante Aktion: "
          ∷ r.action
          ∷ ". Ziel: "
          ∷ target
          ∷ ". Risiko: "
          ∷ risk_value r.risk
          ∷ ". Die Aktion ist "
          ∷ (if r.reversible then "rückgängig machbar" else "nicht rückgängig")
          ∷ ". Zum Bestätigen sagen Sie: "
          ∷ phrase
          ∷ "."
          ∷ []))
