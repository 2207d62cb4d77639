-- ===== src/Policy/Table/Accessibility.antt =====
-- The entries of `ACTION_POLICIES` of src/clausis/policy.py for the accessibility services.
use clausis.Prelude.{String, true, false, List, [], ◌∷◌, some}
use clausis.Models.Request.{medium}
use clausis.Policy.Rule.{
  ActionPolicy, magnifier_caret_tracking, magnifier_cross_hairs_color, magnifier_cross_hairs_length,
  magnifier_cross_hairs_opacity, magnifier_cross_hairs_thickness, magnifier_filter_percentage,
  magnifier_focus_tracking, magnifier_mouse_tracking, magnifier_percentage, magnifier_saturation,
  magnifier_screen_position, no_parameters,
}
use clausis.Policy.Table.Entry.{listed}

abbrev pub accessibility_policies : List (String × ActionPolicy)
accessibility_policies =
    (
      "accessibility.screen_keyboard.enable",
      listed medium true
          (some (
            "gsettings" ∷ "set" ∷ "org.gnome.desktop.a11y.applications" ∷ "screen-keyboard-enabled"
            ∷ "true" ∷ []))
          (some no_parameters) false,
    )
    ∷ (
      "accessibility.screen_reader.enable",
      listed medium true
          (some (
            "gsettings" ∷ "set" ∷ "org.gnome.desktop.a11y.applications" ∷ "screen-reader-enabled"
            ∷ "true" ∷ []))
          (some no_parameters) false,
    )
    ∷ (
      "accessibility.screen_reader.restart_with_speech",
      listed medium true (some ("clausis-orca-control" ∷ "restart" ∷ [])) (some no_parameters)
          false,
    )
    ∷ (
      "accessibility.screen_magnifier.enable",
      listed medium true
          (some (
            "gsettings" ∷ "set" ∷ "org.gnome.desktop.a11y.applications" ∷ "screen-magnifier-enabled"
            ∷ "true" ∷ []))
          (some no_parameters) false,
    )
    ∷ (
      "accessibility.screen_magnifier.disable",
      listed medium true
          (some (
            "gsettings" ∷ "set" ∷ "org.gnome.desktop.a11y.applications" ∷ "screen-magnifier-enabled"
            ∷ "false" ∷ []))
          (some no_parameters) false,
    )
    ∷ (
      "accessibility.screen_magnifier.set_percent",
      listed medium true
          (some ("gsettings" ∷ "set" ∷ "org.gnome.desktop.a11y.magnifier" ∷ "mag-factor" ∷ []))
          (some magnifier_percentage) false,
    )
    ∷ (
      "accessibility.screen_magnifier.invert_lightness.enable",
      listed medium true
          (some (
            "gsettings" ∷ "set" ∷ "org.gnome.desktop.a11y.magnifier" ∷ "invert-lightness" ∷ "true"
            ∷ []))
          (some no_parameters) false,
    )
    ∷ (
      "accessibility.screen_magnifier.invert_lightness.disable",
      listed medium true
          (some (
            "gsettings" ∷ "set" ∷ "org.gnome.desktop.a11y.magnifier" ∷ "invert-lightness" ∷ "false"
            ∷ []))
          (some no_parameters) false,
    )
    ∷ (
      "accessibility.screen_magnifier.set_saturation",
      listed medium true
          (some
            ("gsettings" ∷ "set" ∷ "org.gnome.desktop.a11y.magnifier" ∷ "color-saturation" ∷ []))
          (some magnifier_saturation) false,
    )
    ∷ (
      "accessibility.screen_magnifier.set_brightness",
      listed medium true (some ("clausis-magnifier-filter" ∷ "brightness" ∷ []))
          (some magnifier_filter_percentage) false,
    )
    ∷ (
      "accessibility.screen_magnifier.set_contrast",
      listed medium true (some ("clausis-magnifier-filter" ∷ "contrast" ∷ []))
          (some magnifier_filter_percentage) false,
    )
    ∷ (
      "accessibility.screen_magnifier.set_screen_position",
      listed medium true
          (some ("gsettings" ∷ "set" ∷ "org.gnome.desktop.a11y.magnifier" ∷ "screen-position" ∷ []))
          (some magnifier_screen_position) false,
    )
    ∷ (
      "accessibility.screen_magnifier.cross_hairs.enable",
      listed medium true
          (some (
            "gsettings" ∷ "set" ∷ "org.gnome.desktop.a11y.magnifier" ∷ "show-cross-hairs" ∷ "true"
            ∷ []))
          (some no_parameters) false,
    )
    ∷ (
      "accessibility.screen_magnifier.cross_hairs.disable",
      listed medium true
          (some (
            "gsettings" ∷ "set" ∷ "org.gnome.desktop.a11y.magnifier" ∷ "show-cross-hairs" ∷ "false"
            ∷ []))
          (some no_parameters) false,
    )
    ∷ (
      "accessibility.screen_magnifier.cross_hairs.set_opacity",
      listed medium true
          (some
            ("gsettings" ∷ "set" ∷ "org.gnome.desktop.a11y.magnifier" ∷ "cross-hairs-opacity" ∷ []))
          (some magnifier_cross_hairs_opacity) false,
    )
    ∷ (
      "accessibility.screen_magnifier.cross_hairs.clip.enable",
      listed medium true
          (some (
            "gsettings" ∷ "set" ∷ "org.gnome.desktop.a11y.magnifier" ∷ "cross-hairs-clip" ∷ "true"
            ∷ []))
          (some no_parameters) false,
    )
    ∷ (
      "accessibility.screen_magnifier.cross_hairs.clip.disable",
      listed medium true
          (some (
            "gsettings" ∷ "set" ∷ "org.gnome.desktop.a11y.magnifier" ∷ "cross-hairs-clip" ∷ "false"
            ∷ []))
          (some no_parameters) false,
    )
    ∷ (
      "accessibility.screen_magnifier.cross_hairs.set_length",
      listed medium true
          (some
            ("gsettings" ∷ "set" ∷ "org.gnome.desktop.a11y.magnifier" ∷ "cross-hairs-length" ∷ []))
          (some magnifier_cross_hairs_length) false,
    )
    ∷ (
      "accessibility.screen_magnifier.cross_hairs.set_thickness",
      listed medium true
          (some (
            "gsettings" ∷ "set" ∷ "org.gnome.desktop.a11y.magnifier" ∷ "cross-hairs-thickness"
            ∷ []))
          (some magnifier_cross_hairs_thickness) false,
    )
    ∷ (
      "accessibility.screen_magnifier.cross_hairs.set_color",
      listed medium true
          (some
            ("gsettings" ∷ "set" ∷ "org.gnome.desktop.a11y.magnifier" ∷ "cross-hairs-color" ∷ []))
          (some magnifier_cross_hairs_color) false,
    )
    ∷ (
      "accessibility.screen_magnifier.set_focus_tracking",
      listed medium true
          (some ("gsettings" ∷ "set" ∷ "org.gnome.desktop.a11y.magnifier" ∷ "focus-tracking" ∷ []))
          (some magnifier_focus_tracking) false,
    )
    ∷ (
      "accessibility.screen_magnifier.set_caret_tracking",
      listed medium true
          (some ("gsettings" ∷ "set" ∷ "org.gnome.desktop.a11y.magnifier" ∷ "caret-tracking" ∷ []))
          (some magnifier_caret_tracking) false,
    )
    ∷ (
      "accessibility.screen_magnifier.set_mouse_tracking",
      listed medium true
          (some ("gsettings" ∷ "set" ∷ "org.gnome.desktop.a11y.magnifier" ∷ "mouse-tracking" ∷ []))
          (some magnifier_mouse_tracking) false,
    )
    ∷ (
      "accessibility.screen_magnifier.lens_mode.enable",
      listed medium true
          (some
            ("gsettings" ∷ "set" ∷ "org.gnome.desktop.a11y.magnifier" ∷ "lens-mode" ∷ "true" ∷ []))
          (some no_parameters) false,
    )
    ∷ (
      "accessibility.screen_magnifier.lens_mode.disable",
      listed medium true
          (some
            ("gsettings" ∷ "set" ∷ "org.gnome.desktop.a11y.magnifier" ∷ "lens-mode" ∷ "false" ∷ []))
          (some no_parameters) false,
    )
    ∷ (
      "accessibility.screen_magnifier.scroll_at_edges.enable",
      listed medium true
          (some (
            "gsettings" ∷ "set" ∷ "org.gnome.desktop.a11y.magnifier" ∷ "scroll-at-edges" ∷ "true"
            ∷ []))
          (some no_parameters) false,
    )
    ∷ (
      "accessibility.screen_magnifier.scroll_at_edges.disable",
      listed medium true
          (some (
            "gsettings" ∷ "set" ∷ "org.gnome.desktop.a11y.magnifier" ∷ "scroll-at-edges" ∷ "false"
            ∷ []))
          (some no_parameters) false,
    )
    ∷ []
