-- ===== src/Router/Commands/System.antt =====
-- The entries of `COMMANDS` of src/clausis/router.py for windows, sound, the network, the session and files.
use clausis.Prelude.{true, false, List, [], ◌∷◌}
use clausis.Models.Request.{low, medium, high, critical}
use clausis.Router.Builder.{CommandPattern, command, simple, targeted, volume}

abbrev pub system_commands : List CommandPattern
system_commands =
    command "next-window" ("nächstes fenster" ∷ "next window" ∷ [])
      (simple "desktop.window.next" low true)
    ∷ command "previous-window" ("vorheriges fenster" ∷ "previous window" ∷ [])
        (simple "desktop.window.previous" low true)
    ∷ command "minimize-window" ("fenster minimieren" ∷ "minimize (?:the )?window" ∷ [])
        (simple "desktop.window.minimize" low true)
    ∷ command "maximize-window" ("fenster maximieren" ∷ "maximize (?:the )?window" ∷ [])
        (simple "desktop.window.maximize" low true)
    ∷ command "restore-window" ("fenster wiederherstellen" ∷ "restore (?:the )?window" ∷ [])
        (simple "desktop.window.restore" low true)
    ∷ command "volume-up" ("lauter" ∷ "volume up" ∷ []) (simple "audio.volume.up" low true)
    ∷ command "volume-down" ("leiser" ∷ "volume down" ∷ []) (simple "audio.volume.down" low true)
    ∷ command "mute" ("ton (?:aus|stumm)" ∷ "mute" ∷ []) (simple "audio.mute.toggle" low true)
    ∷ command "volume-set"
        ("lautstärke (?P<percent>\\d{1,3})(?: prozent)?"
          ∷ "volume (?P<percent>\\d{1,3})(?: percent)?" ∷ [])
        volume
    ∷ command "network-status" ("netzwerkstatus" ∷ "network status" ∷ [])
        (simple "network.status" low true)
    ∷ command "wifi-on" ("wlan an" ∷ "wifi on" ∷ []) (simple "network.wifi.enable" medium true)
    ∷ command "wifi-off" ("wlan aus" ∷ "wifi off" ∷ []) (simple "network.wifi.disable" medium true)
    ∷ command "system-status" ("systemstatus" ∷ "system status" ∷ [])
        (simple "system.status" low true)
    ∷ command "lock" ("bildschirm sperren" ∷ "lock (?:the )?screen" ∷ [])
        (simple "system.lock" low true)
    ∷ command "logout" ("abmelden" ∷ "log ?out" ∷ []) (simple "system.logout" high true)
    ∷ command "reboot"
        ("(?:computer|rechner) neu starten" ∷ "reboot (?:the )?(?:computer|system)?" ∷ [])
        (simple "system.reboot" critical false)
    ∷ command "poweroff"
        ("(?:computer|rechner) ausschalten" ∷ "(?:power off|shut down)(?: the computer)?" ∷ [])
        (simple "system.poweroff" critical false)
    ∷ command "file-open"
        ("öffne datei (?P<target>/[^\\x00]+)" ∷ "open file (?P<target>/[^\\x00]+)" ∷ [])
        (targeted "file.open" low true)
    ∷ command "file-search" ("suche datei (?P<target>.+)" ∷ "find file (?P<target>.+)" ∷ [])
        (targeted "file.search" low true)
    ∷ command "trash"
        ("verschiebe datei (?P<target>/[^\\x00]+) in den papierkorb"
          ∷ "move file (?P<target>/[^\\x00]+) to trash" ∷ [])
        (targeted "file.move_to_trash" high true)
    ∷ command "update-check" ("suche nach updates" ∷ "check for updates" ∷ [])
        (simple "update.check" low true)
    ∷ command "security-updates"
        ("installiere sicherheitsupdates" ∷ "install security updates" ∷ [])
        (simple "update.install_security" high true)
    ∷ []
