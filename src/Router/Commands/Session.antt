-- ===== src/Router/Commands/Session.antt =====
-- The entries of `COMMANDS` of src/clausis/router.py for focus, fields, the clipboard, the dialogue and the shell.
use clausis.Prelude.{true, false, List, [], ◌∷◌}
use clausis.Models.Request.{low, medium}
use clausis.Router.Builder.{CommandPattern, command, notification_number, simple, targeted}

abbrev pub session_commands : List CommandPattern
session_commands =
    command "activate-named" ("w\\u00e4hle (?P<target>.+)" ∷ "select (?P<target>.+)" ∷ [])
      (targeted "desktop.control.activate_named" medium true)
    ∷ command "next-control" ("fokus weiter" ∷ "n\\u00e4chstes bedienelement" ∷ "next control" ∷ [])
        (simple "desktop.focus.next" low true)
    ∷ command "previous-control"
        ("fokus zur\\u00fcck" ∷ "vorheriges bedienelement" ∷ "previous control" ∷ [])
        (simple "desktop.focus.previous" low true)
    ∷ command "focus-named" ("fokussiere (?P<target>.+)" ∷ "focus (?P<target>.+)" ∷ [])
        (targeted "desktop.focus.named" low true)
    ∷ command "set-text"
        ("schreibe (?:in das|ins) textfeld (?P<target>.+)"
          ∷ "(?:type|enter text) (?:into|in) (?:the )?field (?P<target>.+)" ∷ [])
        (targeted "desktop.text.set" medium true)
    ∷ command "clear-text" ("textfeld leeren" ∷ "clear (?:the )?(?:text )?field" ∷ [])
        (simple "desktop.text.clear" medium true)
    ∷ command "clear-clipboard" ("zwischenablage leeren" ∷ "clear (?:the )?clipboard" ∷ [])
        (simple "desktop.clipboard.clear" medium false)
    ∷ command "read-clipboard" ("lies (?:die )?zwischenablage vor" ∷ "read (?:the )?clipboard" ∷ [])
        (simple "desktop.clipboard.read_text" medium true)
    ∷ command "write-clipboard"
        ("schreibe in (?:die )?zwischenablage (?P<target>.+)"
          ∷ "write to (?:the )?clipboard (?P<target>.+)" ∷ [])
        (targeted "desktop.clipboard.write_text" medium false)
    ∷ command "repeat" ("wiederholen" ∷ "wiederhole das" ∷ "repeat" ∷ [])
        (simple "voice.repeat" low true)
    ∷ command "cancel" ("abbrechen" ∷ "cancel" ∷ []) (simple "voice.cancel" low true)
    ∷ command "correct" ("korrigieren" ∷ "correct that" ∷ []) (simple "voice.correct" low true)
    ∷ command "close-window" ("fenster schließen" ∷ "close (?:the )?window" ∷ [])
        (simple "desktop.window.close" medium true)
    ∷ command "move-window-workspace-previous"
        ("fenster auf (?:die )?(?:vorherige|linke) arbeitsfläche verschieben"
          ∷ "move (?:the )?window to (?:the )?(?:previous|left) workspace" ∷ [])
        (simple "desktop.window.workspace_previous" medium true)
    ∷ command "move-window-workspace-next"
        ("fenster auf (?:die )?(?:nächste|rechte) arbeitsfläche verschieben"
          ∷ "move (?:the )?window to (?:the )?(?:next|right) workspace" ∷ [])
        (simple "desktop.window.workspace_next" medium true)
    ∷ command "launch"
        ("(?:öffne|starte) (?P<target>[\\w.+@:-]+)" ∷ "(?:open|launch) (?P<target>[\\w.+@:-]+)"
          ∷ [])
        (targeted "app.launch" low true)
    ∷ command "close" ("schließe (?P<target>[\\w.+@:-]+)" ∷ "close (?P<target>[\\w.+@:-]+)" ∷ [])
        (targeted "app.close" medium true)
    ∷ command "settings" ("öffne (?:die )?einstellungen" ∷ "open settings" ∷ [])
        (simple "desktop.settings.open" low true)
    ∷ command "overview" ("zeige (?:die )?übersicht" ∷ "show overview" ∷ [])
        (simple "desktop.overview" low true)
    ∷ command "applications" ("zeige (?:die )?anwendungen" ∷ "show applications" ∷ [])
        (simple "desktop.applications" low true)
    ∷ command "quick-settings"
        ("(?:\\u00f6ffne|zeige) (?:die )?schnelleinstellungen" ∷ "(?:open|show) quick settings"
          ∷ [])
        (simple "desktop.quick_settings" low true)
    ∷ command "notifications"
        ("(?:\\u00f6ffne|zeige) (?:die )?benachrichtigungen" ∷ "(?:open|show) notifications" ∷ [])
        (simple "desktop.notifications" low true)
    ∷ command "read-notifications"
        ("lies (?:die )?benachrichtigungen vor" ∷ "read (?:the )?notifications" ∷ [])
        (simple "desktop.notifications.read" medium true)
    ∷ command "dismiss-notification"
        ("verwirf benachrichtigung (?:nummer )?(?P<number>\\d{1,2}|eins|zwei|drei|vier|fünf|sechs|sieben|acht|neun|zehn)"
          ∷ "dismiss notification (?:number )?(?P<number>\\d{1,2}|one|two|three|four|five|six|seven|eight|nine|ten)"
          ∷ [])
        notification_number
    ∷ []
