-- ===== src/Confirmation/Summary/OtherTargets.antt =====
-- The entries of `fixed_targets` of src/clausis/confirmation.py for the other actions.
use clausis.Prelude.{String, List, [], ◌∷◌}

abbrev pub other_targets : List (String × String)
other_targets =
    ("desktop.window.workspace_previous", "das aktive Fenster auf die vorherige Arbeitsfläche")
    ∷ ("desktop.window.workspace_next", "das aktive Fenster auf die nächste Arbeitsfläche")
    ∷ (
      "desktop.clipboard.clear",
      "den aktuellen Inhalt der Wayland-Zwischenablage dauerhaft löschen; die primäre Auswahl bleibt unverändert",
    )
    ∷ (
      "desktop.clipboard.read_text",
      "den Textinhalt der Wayland-Zwischenablage nach der Bestätigung laut vorlesen; der Inhalt selbst wird weder in dieser Bestätigung noch im Audit gespeichert",
    )
    ∷ (
      "desktop.clipboard.write_text",
      "den diktierten Text dauerhaft in die Wayland-Zwischenablage schreiben und deren bisherigen Inhalt überschreiben; der diktierte Inhalt wird weder wiederholt noch im Audit gespeichert",
    )
    ∷ ("accessibility.screen_keyboard.enable", "die GNOME-Bildschirmtastatur dauerhaft einschalten")
    ∷ ("accessibility.screen_reader.enable", "den Orca-Screenreader dauerhaft einschalten")
    ∷ (
      "accessibility.screen_reader.restart_with_speech",
      "den Orca-Screenreader mit erzwungener Sprachausgabe neu starten",
    )
    ∷ (
      "accessibility.screen_magnifier.enable",
      "die GNOME-Bildschirmvergrößerung dauerhaft einschalten",
    )
    ∷ (
      "accessibility.screen_magnifier.disable",
      "die GNOME-Bildschirmvergrößerung ausschalten; Orca und Bildschirmtastatur bleiben eingeschaltet",
    )
    ∷ (
      "accessibility.screen_magnifier.invert_lightness.enable",
      "die Farbinvertierung der GNOME-Bildschirmvergrößerung einschalten",
    )
    ∷ (
      "accessibility.screen_magnifier.invert_lightness.disable",
      "die Farbinvertierung der GNOME-Bildschirmvergrößerung ausschalten",
    )
    ∷ (
      "accessibility.screen_magnifier.cross_hairs.enable",
      "das Fadenkreuz der GNOME-Bildschirmvergrößerung einschalten",
    )
    ∷ (
      "accessibility.screen_magnifier.cross_hairs.disable",
      "das Fadenkreuz der GNOME-Bildschirmvergrößerung ausschalten",
    )
    ∷ (
      "accessibility.screen_magnifier.cross_hairs.clip.enable",
      "die Mitte des Lupen-Fadenkreuzes um den Zeiger aussparen",
    )
    ∷ (
      "accessibility.screen_magnifier.cross_hairs.clip.disable",
      "die Aussparung in der Mitte des Lupen-Fadenkreuzes aufheben",
    )
    ∷ (
      "accessibility.screen_magnifier.lens_mode.enable",
      "den Linsenmodus der GNOME-Bildschirmvergrößerung einschalten",
    )
    ∷ (
      "accessibility.screen_magnifier.lens_mode.disable",
      "den Linsenmodus der GNOME-Bildschirmvergrößerung ausschalten",
    )
    ∷ (
      "accessibility.screen_magnifier.scroll_at_edges.enable",
      "das Scrollen am Bildschirmrand für die GNOME-Bildschirmvergrößerung einschalten",
    )
    ∷ (
      "accessibility.screen_magnifier.scroll_at_edges.disable",
      "das Scrollen am Bildschirmrand für die GNOME-Bildschirmvergrößerung ausschalten",
    )
    ∷ []
