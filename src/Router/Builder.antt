-- ===== src/Router/Builder.antt =====
-- The builders of src/clausis/router.py: what a command makes of a match of its pattern. A builder is
-- named by a constructor, and `build` runs it.
use clausis.Prelude.{ℕ, String, Bool, List, [], ◌∷◌, Option, none, some, if◌then◌else◌, lookup}
use clausis.Outcome.{Outcome, ok, raised, key_error, attribute_error}
use clausis.Stdlib.{Text}
use clausis.Text.{codes, text_eq}
use clausis.Models.Value.{Float, Dict}
use clausis.Models.Request.{ActionRequest, Risk, local_voice}

-- The groups of a match; a group that took no part is missing.
abbrev pub Match : Type 0
Match = List (String × String)

-- The regular expressions and the number format of Python: `re.compile(p, re.IGNORECASE).fullmatch`
-- and `float`.
pub record Patterns : Type 0 where
  pub fullmatch : String → Text → Option Match
  pub to_float : String → Option Float

pub data Builder : Type 0 where
  simple targeted : String → Risk → Bool → Builder
  volume control_number notification_number slider combo spin : Builder
  checkbox switch : Bool → Builder
  permission_decision file_dialog_decision standard_dialog_decision : String → Builder
  magnifier_screen_position magnifier_focus_tracking : Builder
  magnifier_tracking magnifier_filter : String → Builder
  magnifier_cross_hairs_named_color magnifier_cross_hairs_rgb_color : Builder
  magnifier_number : String → String → Builder

pub record CommandPattern : Type 0 where
  pub name : String
  pub patterns : List String
  pub builder : Builder

abbrev pub command : String → List String → Builder → CommandPattern
command name patterns builder = record { name = name; patterns = patterns; builder = builder }

-- ActionRequest(action, target=…, arguments=…, risk=…, reversible=…)
abbrev pub request_of : String → String → Dict → Risk → Bool → ActionRequest
request_of action target arguments risk reversible = record {
  action = action;
  target = target;
  arguments = arguments;
  origin = local_voice;
  risk = risk;
  reversible = reversible;
  capability_token = none;
  expires_at = none;
}

-- match.group(name) of a group that must have taken part for what follows
abbrev pub group : String → Match → Outcome String
group name m = elim (lookup name m) [ none ↦ raised attribute_error | some t ↦ ok t ]

-- table[key], for a key that was case-folded
abbrev pub keyed {ℓ} : {A : Type ℓ} → List (Text × A) → Text → Outcome A
keyed [] k = raised key_error
keyed ((j, a) ∷ table) k = let rest = keyed table k in if text_eq j k then ok a else rest

abbrev pub spoken_numbers : List (Text × ℕ)
spoken_numbers =
    (codes "eins", 1)
    ∷ (codes "one", 1)
    ∷ (codes "zwei", 2)
    ∷ (codes "two", 2)
    ∷ (codes "drei", 3)
    ∷ (codes "three", 3)
    ∷ (codes "vier", 4)
    ∷ (codes "four", 4)
    ∷ (codes "fünf", 5)
    ∷ (codes "five", 5)
    ∷ (codes "sechs", 6)
    ∷ (codes "six", 6)
    ∷ (codes "sieben", 7)
    ∷ (codes "seven", 7)
    ∷ (codes "acht", 8)
    ∷ (codes "eight", 8)
    ∷ (codes "neun", 9)
    ∷ (codes "nine", 9)
    ∷ (codes "zehn", 10)
    ∷ (codes "ten", 10)
    ∷ []

abbrev pub magnifier_positions : List (Text × String)
magnifier_positions =
    (codes "vollbild", "full-screen")
    ∷ (codes "obere hälfte", "top-half")
    ∷ (codes "untere hälfte", "bottom-half")
    ∷ (codes "linke hälfte", "left-half")
    ∷ (codes "rechte hälfte", "right-half")
    ∷ (codes "full screen", "full-screen")
    ∷ (codes "top half", "top-half")
    ∷ (codes "bottom half", "bottom-half")
    ∷ (codes "left half", "left-half")
    ∷ (codes "right half", "right-half")
    ∷ []

-- _MAGNIFIER_FOCUS_TRACKING
abbrev pub magnifier_modes : List (Text × String)
magnifier_modes =
    (codes "aus", "none")
    ∷ (codes "zentriert", "centered")
    ∷ (codes "proportional", "proportional")
    ∷ (codes "schiebend", "push")
    ∷ (codes "off", "none")
    ∷ (codes "centered", "centered")
    ∷ (codes "push", "push")
    ∷ []

pub record Color : Type 0 where
  pub red : ℕ
  pub green : ℕ
  pub blue : ℕ

abbrev pub color : ℕ → ℕ → ℕ → Color
color red green blue = record { red = red; green = green; blue = blue }

abbrev pub cross_hair_colors : List (Text × Color)
cross_hair_colors =
    (codes "schwarz", color 0 0 0)
    ∷ (codes "black", color 0 0 0)
    ∷ (codes "weiß", color 255 255 255)
    ∷ (codes "weiss", color 255 255 255)
    ∷ (codes "white", color 255 255 255)
    ∷ (codes "rot", color 255 0 0)
    ∷ (codes "red", color 255 0 0)
    ∷ (codes "grün", color 0 255 0)
    ∷ (codes "gruen", color 0 255 0)
    ∷ (codes "green", color 0 255 0)
    ∷ (codes "blau", color 0 0 255)
    ∷ (codes "blue", color 0 0 255)
    ∷ (codes "gelb", color 255 255 0)
    ∷ (codes "yellow", color 255 255 0)
    ∷ (codes "cyan", color 0 255 255)
    ∷ (codes "magenta", color 255 0 255)
    ∷ []
