-- ===== src/Policy/Table/System.antt =====
-- The entries of `ACTION_POLICIES` of src/clausis/policy.py for files, sound, the network, the session and packages.
use clausis.Prelude.{String, true, false, List, [], ◌∷◌, none, some}
use clausis.Models.Request.{low, medium, high, critical}
use clausis.Policy.Rule.{ActionPolicy, path, percentage, safe_identifier, target_required}
use clausis.Policy.Table.Entry.{listed}

abbrev pub system_policies : List (String × ActionPolicy)
system_policies =
    ("file.open", listed low true (some ("gio" ∷ "open" ∷ [])) (some path) false)
    ∷ ("file.search", listed low true none (some target_required) false)
    ∷ ("file.move_to_trash", listed high true (some ("gio" ∷ "trash" ∷ [])) (some path) false)
    ∷ ("file.delete", listed critical false none (some path) false)
    ∷ (
      "audio.volume.set",
      listed low true (some ("wpctl" ∷ "set-volume" ∷ "@DEFAULT_AUDIO_SINK@" ∷ []))
          (some percentage) false,
    )
    ∷ (
      "audio.volume.up",
      listed low true (some ("wpctl" ∷ "set-volume" ∷ "@DEFAULT_AUDIO_SINK@" ∷ "5%+" ∷ [])) none
          false,
    )
    ∷ (
      "audio.volume.down",
      listed low true (some ("wpctl" ∷ "set-volume" ∷ "@DEFAULT_AUDIO_SINK@" ∷ "5%-" ∷ [])) none
          false,
    )
    ∷ (
      "audio.mute.toggle",
      listed low true (some ("wpctl" ∷ "set-mute" ∷ "@DEFAULT_AUDIO_SINK@" ∷ "toggle" ∷ [])) none
          false,
    )
    ∷ ("network.status", listed low true (some ("nmcli" ∷ "general" ∷ "status" ∷ [])) none false)
    ∷ (
      "network.wifi.enable",
      listed medium true (some ("nmcli" ∷ "radio" ∷ "wifi" ∷ "on" ∷ [])) none false,
    )
    ∷ (
      "network.wifi.disable",
      listed medium true (some ("nmcli" ∷ "radio" ∷ "wifi" ∷ "off" ∷ [])) none false,
    )
    ∷ ("system.status", listed low true none none false)
    ∷ ("system.lock", listed low true (some ("loginctl" ∷ "lock-session" ∷ [])) none false)
    ∷ (
      "system.logout",
      listed high true (some ("gnome-session-quit" ∷ "--logout" ∷ "--no-prompt" ∷ [])) none false,
    )
    ∷ ("system.reboot", listed critical false (some ("systemctl" ∷ "reboot" ∷ [])) none true)
    ∷ ("system.poweroff", listed critical false (some ("systemctl" ∷ "poweroff" ∷ [])) none true)
    ∷ ("package.install", listed high true none (some safe_identifier) true)
    ∷ ("package.remove", listed critical false none (some safe_identifier) true)
    ∷ ("update.check", listed low true none none false)
    ∷ ("update.install_security", listed high true none none true)
    ∷ []
