-- ===== src/Router/Commands/Controls.antt =====
-- The entries of `COMMANDS` of src/clausis/router.py for dialogs and controls.
use clausis.Prelude.{true, false, List, [], ◌∷◌}
use clausis.Models.Request.{low, medium, high}
use clausis.Router.Builder.{
  CommandPattern, command, checkbox, combo, control_number, file_dialog_decision,
  permission_decision, simple, slider, spin, standard_dialog_decision, switch, targeted,
}

abbrev pub control_commands : List CommandPattern
control_commands =
    command "available-controls"
      ("was kann ich hier tun" ∷ "was kann ich tun" ∷ "what can i do here" ∷ [])
      (simple "desktop.controls.list" low true)
    ∷ command "activate-number"
        ("(?:nummer )?(?P<number>\\d{1,2}|eins|zwei|drei|vier|fünf|sechs|sieben|acht|neun|zehn)"
          ∷ "(?:number )?(?P<number>\\d{1,2}|one|two|three|four|five|six|seven|eight|nine|ten)"
          ∷ [])
        control_number
    ∷ command "back" ("zurück" ∷ "go back" ∷ "back" ∷ []) (simple "desktop.navigate.back" low true)
    ∷ command "allow-permission" ("berechtigung erlauben" ∷ "allow (?:the )?permission" ∷ [])
        (permission_decision "allow")
    ∷ command "deny-permission" ("berechtigung ablehnen" ∷ "deny (?:the )?permission" ∷ [])
        (permission_decision "deny")
    ∷ command "set-file-name"
        ("setze dateiname (?P<target>.+)" ∷ "set file name (?P<target>.+)" ∷ [])
        (targeted "desktop.file_dialog.set_name" medium true)
    ∷ command "set-file-location"
        ("setze pfad (?P<target>/.+|/)"
          ∷ "set (?:the )?(?:file )?(?:location|path) (?P<target>/.+|/)" ∷ [])
        (targeted "desktop.file_dialog.set_location" medium true)
    ∷ command "select-visible-file"
        ("w\\u00e4hle sichtbare (?:datei|ordner) (?P<target>.+)"
          ∷ "select visible (?:file|folder) (?P<target>.+)" ∷ [])
        (targeted "desktop.file_dialog.select_visible" medium true)
    ∷ command "open-visible-folder"
        ("\\u00f6ffne sichtbaren ordner (?P<target>.+)" ∷ "open visible folder (?P<target>.+)" ∷ [])
        (targeted "desktop.file_dialog.open_visible_folder" medium true)
    ∷ command "accept-file-dialog"
        ("(?:bestätige|akzeptiere) (?:den )?dateidialog" ∷ "(?:confirm|accept) (?:the )?file dialog"
          ∷ [])
        (file_dialog_decision "accept")
    ∷ command "cancel-file-dialog"
        ("brich (?:den )?dateidialog ab" ∷ "cancel (?:the )?file dialog" ∷ [])
        (file_dialog_decision "cancel")
    ∷ command "accept-standard-dialog"
        ("(?:bestätige|akzeptiere) (?:den )?dialog" ∷ "(?:confirm|accept) (?:the )?dialog" ∷ [])
        (standard_dialog_decision "accept")
    ∷ command "cancel-standard-dialog" ("brich (?:den )?dialog ab" ∷ "cancel (?:the )?dialog" ∷ [])
        (standard_dialog_decision "cancel")
    ∷ command "retry-standard-dialog" ("wiederhole (?:den )?dialog" ∷ "retry (?:the )?dialog" ∷ [])
        (standard_dialog_decision "retry")
    ∷ command "apply-standard-dialog" ("wende (?:den )?dialog an" ∷ "apply (?:the )?dialog" ∷ [])
        (standard_dialog_decision "apply")
    ∷ command "read-standard-dialog" ("lies (?:den )?dialog vor" ∷ "read (?:the )?dialog" ∷ [])
        (simple "desktop.standard_dialog.read" medium true)
    ∷ command "dismiss-standard-dialog" ("schließe (?:den )?dialog" ∷ "close (?:the )?dialog" ∷ [])
        (simple "desktop.standard_dialog.dismiss" high false)
    ∷ command "expand-tree-item"
        ("klappe baumelement (?P<target>.+) auf" ∷ "expand tree item (?P<target>.+)" ∷ [])
        (targeted "desktop.tree.expand_named" medium true)
    ∷ command "collapse-tree-item"
        ("klappe baumelement (?P<target>.+) zu" ∷ "collapse tree item (?P<target>.+)" ∷ [])
        (targeted "desktop.tree.collapse_named" medium true)
    ∷ command "select-table-row"
        ("w\\u00e4hle tabellenzeile (?P<target>.+)" ∷ "select table row (?P<target>.+)" ∷ [])
        (targeted "desktop.table.select_row" medium true)
    ∷ command "select-tab"
        ("w\\u00e4hle registerkarte (?P<target>.+)" ∷ "select tab (?P<target>.+)" ∷ [])
        (targeted "desktop.tabs.select_named" medium true)
    ∷ command "set-slider"
        ("setze schieberegler (?P<target>.+?) auf (?P<percent>\\d{1,3})(?: prozent)?"
          ∷ "set slider (?P<target>.+?) to (?P<percent>\\d{1,3})(?: percent)?" ∷ [])
        slider
    ∷ command "check-checkbox"
        ("aktiviere kontrollk\\u00e4stchen (?P<target>.+)"
          ∷ "check (?:the )?checkbox (?P<target>.+)" ∷ [])
        (checkbox true)
    ∷ command "uncheck-checkbox"
        ("deaktiviere kontrollk\\u00e4stchen (?P<target>.+)"
          ∷ "uncheck (?:the )?checkbox (?P<target>.+)" ∷ [])
        (checkbox false)
    ∷ command "enable-switch"
        ("schalte schalter (?P<target>.+?) ein" ∷ "turn switch (?P<target>.+?) on" ∷ [])
        (switch true)
    ∷ command "disable-switch"
        ("schalte schalter (?P<target>.+?) aus" ∷ "turn switch (?P<target>.+?) off" ∷ [])
        (switch false)
    ∷ command "select-radio"
        ("w\\u00e4hle optionsfeld (?P<target>.+)" ∷ "select radio (?:button )?(?P<target>.+)" ∷ [])
        (targeted "desktop.radio.select_named" medium true)
    ∷ command "select-combo-item"
        ("w\\u00e4hle in auswahlliste (?P<target>.+?) den eintrag (?P<item>.+)"
          ∷ "select item (?P<item>.+?) in combo box (?P<target>.+)" ∷ [])
        combo
    ∷ command "set-spin-button"
        ("setze zahlenfeld (?P<target>.+?) auf (?P<value>-?\\d{1,9}(?:[.,]\\d{1,6})?)"
          ∷ "set spin button (?P<target>.+?) to (?P<value>-?\\d{1,9}(?:[.,]\\d{1,6})?)" ∷ [])
        spin
    ∷ command "activate-menu-item"
        ("aktiviere men\\u00fceintrag (?P<target>.+)" ∷ "activate menu item (?P<target>.+)" ∷ [])
        (targeted "desktop.menu.activate_item" medium true)
    ∷ command "select-list-item"
        ("w\\u00e4hle listeneintrag (?P<target>.+)" ∷ "select list item (?P<target>.+)" ∷ [])
        (targeted "desktop.selection.select_named" medium true)
    ∷ []
