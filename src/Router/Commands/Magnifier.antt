-- ===== src/Router/Commands/Magnifier.antt =====
-- The entries of `COMMANDS` of src/clausis/router.py for the accessibility services.
use clausis.Prelude.{true, List, [], ◌∷◌}
use clausis.Models.Request.{medium}
use clausis.Router.Builder.{
  CommandPattern, command, magnifier_cross_hairs_named_color, magnifier_cross_hairs_rgb_color,
  magnifier_filter, magnifier_focus_tracking, magnifier_number, magnifier_screen_position,
  magnifier_tracking, simple,
}

abbrev pub magnifier_commands : List CommandPattern
magnifier_commands =
    command "enable-screen-keyboard"
      ("bildschirmtastatur einschalten" ∷ "enable (?:the )?(?:on-screen|screen) keyboard" ∷ [])
      (simple "accessibility.screen_keyboard.enable" medium true)
    ∷ command "enable-screen-reader"
        ("(?:orca|screenreader) einschalten" ∷ "enable (?:orca|the screen reader)" ∷ [])
        (simple "accessibility.screen_reader.enable" medium true)
    ∷ command "restart-screen-reader-with-speech"
        ("(?:orca|screenreader) neu starten" ∷ "restart (?:orca|the screen reader)" ∷ [])
        (simple "accessibility.screen_reader.restart_with_speech" medium true)
    ∷ command "enable-screen-magnifier"
        ("(?:bildschirmvergrößerung|lupe) einschalten"
          ∷ "enable (?:the )?(?:screen magnifier|magnifier)" ∷ [])
        (simple "accessibility.screen_magnifier.enable" medium true)
    ∷ command "disable-screen-magnifier"
        ("(?:bildschirmvergrößerung|lupe) ausschalten"
          ∷ "disable (?:the )?(?:screen magnifier|magnifier)" ∷ [])
        (simple "accessibility.screen_magnifier.disable" medium true)
    ∷ command "set-screen-magnifier"
        ("(?:bildschirmvergrößerung|lupe) (?P<percent>\\d{1,4}) prozent"
          ∷ "(?:screen magnifier|magnifier) (?P<percent>\\d{1,4}) percent" ∷ [])
        (magnifier_number "accessibility.screen_magnifier.set_percent" "percent")
    ∷ command "enable-magnifier-inversion"
        ("(?:farbinvertierung|farben umkehren) einschalten"
          ∷ "enable (?:magnifier )?(?:color |lightness )?inversion" ∷ [])
        (simple "accessibility.screen_magnifier.invert_lightness.enable" medium true)
    ∷ command "disable-magnifier-inversion"
        ("(?:farbinvertierung|farben umkehren) ausschalten"
          ∷ "disable (?:magnifier )?(?:color |lightness )?inversion" ∷ [])
        (simple "accessibility.screen_magnifier.invert_lightness.disable" medium true)
    ∷ command "set-magnifier-saturation"
        ("(?:farbsättigung|sättigung) (?P<percent>\\d{1,3}) prozent"
          ∷ "(?:magnifier )?(?:color )?saturation (?P<percent>\\d{1,3}) percent" ∷ [])
        (magnifier_number "accessibility.screen_magnifier.set_saturation" "percent")
    ∷ command "set-magnifier-brightness"
        ("(?:lupe )?helligkeit (?:(?P<sign>plus|minus) )?(?P<percent>\\d{1,2}) prozent"
          ∷ "magnifier brightness (?:(?P<sign>plus|minus|positive|negative) )?(?P<percent>\\d{1,2}) percent"
          ∷ [])
        (magnifier_filter "accessibility.screen_magnifier.set_brightness")
    ∷ command "set-magnifier-contrast"
        ("(?:lupe )?kontrast (?:(?P<sign>plus|minus) )?(?P<percent>\\d{1,2}) prozent"
          ∷ "magnifier contrast (?:(?P<sign>plus|minus|positive|negative) )?(?P<percent>\\d{1,2}) percent"
          ∷ [])
        (magnifier_filter "accessibility.screen_magnifier.set_contrast")
    ∷ command "set-magnifier-screen-position"
        ("(?:bildschirmvergrößerung|lupe) (?P<position>vollbild|obere hälfte|untere hälfte|linke hälfte|rechte hälfte)"
          ∷ "(?:screen magnifier|magnifier) (?P<position>full screen|top half|bottom half|left half|right half)"
          ∷ [])
        magnifier_screen_position
    ∷ command "enable-magnifier-cross-hairs"
        ("(?:lupe )?fadenkreuz einschalten" ∷ "enable (?:magnifier )?crosshairs" ∷ [])
        (simple "accessibility.screen_magnifier.cross_hairs.enable" medium true)
    ∷ command "disable-magnifier-cross-hairs"
        ("(?:lupe )?fadenkreuz ausschalten" ∷ "disable (?:magnifier )?crosshairs" ∷ [])
        (simple "accessibility.screen_magnifier.cross_hairs.disable" medium true)
    ∷ command "set-magnifier-cross-hairs-opacity"
        ("fadenkreuz deckkraft (?P<percent>\\d{1,3}) prozent"
          ∷ "(?:magnifier )?crosshairs opacity (?P<percent>\\d{1,3}) percent" ∷ [])
        (magnifier_number "accessibility.screen_magnifier.cross_hairs.set_opacity" "percent")
    ∷ command "enable-magnifier-cross-hairs-clip"
        ("fadenkreuz mitte aussparen" ∷ "clip (?:magnifier )?crosshairs at (?:the )?center" ∷ [])
        (simple "accessibility.screen_magnifier.cross_hairs.clip.enable" medium true)
    ∷ command "disable-magnifier-cross-hairs-clip"
        ("fadenkreuz mitte nicht aussparen"
          ∷ "do not clip (?:magnifier )?crosshairs at (?:the )?center" ∷ [])
        (simple "accessibility.screen_magnifier.cross_hairs.clip.disable" medium true)
    ∷ command "set-magnifier-cross-hairs-length"
        ("fadenkreuz länge (?P<pixels>\\d{1,4}) pixel"
          ∷ "(?:magnifier )?crosshairs length (?P<pixels>\\d{1,4}) pixels?" ∷ [])
        (magnifier_number "accessibility.screen_magnifier.cross_hairs.set_length" "pixels")
    ∷ command "set-magnifier-cross-hairs-thickness"
        ("fadenkreuz dicke (?P<pixels>\\d{1,3}) pixel"
          ∷ "(?:magnifier )?crosshairs thickness (?P<pixels>\\d{1,3}) pixels?" ∷ [])
        (magnifier_number "accessibility.screen_magnifier.cross_hairs.set_thickness" "pixels")
    ∷ command "set-magnifier-cross-hairs-named-color"
        ("fadenkreuz farbe (?P<color>schwarz|weiß|weiss|rot|grün|gruen|blau|gelb|cyan|magenta)"
          ∷ "(?:magnifier )?crosshairs color (?P<color>black|white|red|green|blue|yellow|cyan|magenta)"
          ∷ [])
        magnifier_cross_hairs_named_color
    ∷ command "set-magnifier-cross-hairs-rgb-color"
        ("fadenkreuz farbe rgb (?P<red>\\d{1,3}) (?P<green>\\d{1,3}) (?P<blue>\\d{1,3})"
          ∷ "(?:magnifier )?crosshairs color rgb (?P<red>\\d{1,3}) (?P<green>\\d{1,3}) (?P<blue>\\d{1,3})"
          ∷ [])
        magnifier_cross_hairs_rgb_color
    ∷ command "set-magnifier-focus-tracking"
        ("(?:lupe )?fokusverfolgung (?P<mode>aus|zentriert|proportional|schiebend)"
          ∷ "magnifier focus tracking (?P<mode>off|centered|proportional|push)" ∷ [])
        magnifier_focus_tracking
    ∷ command "set-magnifier-caret-tracking"
        ("(?:lupe )?textcursorverfolgung (?P<mode>aus|zentriert|proportional|schiebend)"
          ∷ "magnifier caret tracking (?P<mode>off|centered|proportional|push)" ∷ [])
        (magnifier_tracking "accessibility.screen_magnifier.set_caret_tracking")
    ∷ command "set-magnifier-mouse-tracking"
        ("(?:lupe )?mausverfolgung (?P<mode>aus|zentriert|proportional|schiebend)"
          ∷ "magnifier mouse tracking (?P<mode>off|centered|proportional|push)" ∷ [])
        (magnifier_tracking "accessibility.screen_magnifier.set_mouse_tracking")
    ∷ command "enable-magnifier-lens-mode"
        ("(?:lupe )?linsenmodus einschalten" ∷ "enable (?:magnifier )?lens mode" ∷ [])
        (simple "accessibility.screen_magnifier.lens_mode.enable" medium true)
    ∷ command "disable-magnifier-lens-mode"
        ("(?:lupe )?linsenmodus ausschalten" ∷ "disable (?:magnifier )?lens mode" ∷ [])
        (simple "accessibility.screen_magnifier.lens_mode.disable" medium true)
    ∷ command "enable-magnifier-scroll-at-edges"
        ("(?:lupe )?randscrollen einschalten" ∷ "enable (?:magnifier )?scrolling at (?:the )?edges"
          ∷ [])
        (simple "accessibility.screen_magnifier.scroll_at_edges.enable" medium true)
    ∷ command "disable-magnifier-scroll-at-edges"
        ("(?:lupe )?randscrollen ausschalten" ∷ "disable (?:magnifier )?scrolling at (?:the )?edges"
          ∷ [])
        (simple "accessibility.screen_magnifier.scroll_at_edges.disable" medium true)
    ∷ []
