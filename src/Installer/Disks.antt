-- ===== src/Installer/Disks.antt =====
-- `InstallDisk`, `eligible_install_disks` and `guard_calamares_erase_transaction` of
-- src/clausis/installer.py.
use Prim.Native.String
use clausis.Prelude.{
  ℕ, ◌*◌, ◌^◌, String, Bool, true, false, ◌&&◌, ◌||◌, not, List, [], ◌∷◌, ◌++◌, none, some,
  if◌then◌else◌, ◌==◌, leb, any, all, filter, is_empty, str_eq,
}
use clausis.Prelude.Int.{ℤ, pos, leb_ℤ}
use clausis.Outcome.{Outcome, ok, raised, value_error, reject_if, ◌>>◌}
use clausis.Text.{codes, starts_with, after_prefix, last_chars}

pub record InstallDisk : Type 0 where
  pub path : String
  pub stable_id : String
  pub size_bytes : ℤ
  pub model : String
  pub serial : String
  pub transport : String
  pub removable : Bool
  pub readonly : Bool
  pub mountpoints : List String
  pub child_mountpoints : List String
  pub device_type : String

unfoldable pub serial_suffix : InstallDisk → String
serial_suffix d = if str_eq d.serial "" then "nicht verfügbar" else last_chars 6 d.serial

-- 32 * 1024 ** 3
abbrev pub minimum_disk_bytes : ℤ
minimum_disk_bytes = pos (32 * 1024 ^ 3)

abbrev live_mount_prefixes : List String
live_mount_prefixes =
    "/run/live/medium" ∷ "/lib/live/mount/medium" ∷ "/usr/lib/live/mount/medium" ∷ []

unfoldable pub is_live : List String → Bool
is_live mounts =
    any (λ mount. any (λ prefix. starts_with (codes prefix) (codes mount)) live_mount_prefixes)
      mounts

abbrev pub reason_if : Bool → String → List String
reason_if true reason = reason ∷ []
reason_if false reason = []

unfoldable pub has_stable_id : InstallDisk → Bool
has_stable_id d = starts_with (codes "/dev/disk/by-id/") (codes d.stable_id)

abbrev pub mount_reasons : List String → List String
mount_reasons [] = []
mount_reasons (m ∷ ms) =
    (if is_live (m ∷ ms)
      then "enthält das gestartete Live-System"
      else "Datenträger oder Partition ist eingehängt")
    ∷ []

-- InstallDisk.rejection_reasons
unfoldable pub rejection_reasons : ℤ → InstallDisk → List String
rejection_reasons minimum d =
    reason_if (not (str_eq d.device_type "disk")) "kein physischer Gesamtdatenträger"
    ++ (reason_if d.readonly "schreibgeschützt"
        ++ (reason_if d.removable "Wechseldatenträger"
            ++ (reason_if (not (leb_ℤ minimum d.size_bytes)) "kleiner als 32 GiB"
                ++ (mount_reasons (d.mountpoints ++ d.child_mountpoints)
                    ++ reason_if (not (has_stable_id d)) "keine stabile Gerätekennung"))))

unfoldable pub eligible : InstallDisk → Bool
eligible d = is_empty (rejection_reasons minimum_disk_bytes d)

unfoldable pub eligible_install_disks : List InstallDisk → List InstallDisk
eligible_install_disks disks = filter eligible disks

abbrev is_node_mark : ℕ → Bool
is_node_mark c =
    leb b'A' c && leb c b'Z'
    || leb b'a' c && leb c b'z'
    || leb b'0' c && leb c b'9'
    || c == b'.'
    || c == b'_'
    || c == b'+'
    || c == b'-'

-- DEVICE_NODE_RE
unfoldable pub is_device_node : String → Bool
is_device_node node = elim (after_prefix (codes "/dev/") (codes node)) [
  | none ↦ false
  | some name ↦ not (is_empty name) && all is_node_mark name
]

-- ", ".join(reasons)
abbrev joined : List String → String
joined [] = ""
joined (r ∷ []) = r
joined (r ∷ (s ∷ rs)) = String.◌++◌ r (String.◌++◌ ", " (joined (s ∷ rs)))

abbrev pub guard_disk : InstallDisk → Outcome InstallDisk
guard_disk d =
    if eligible d
    then ok d
    else raised (
        value_error (
          String.◌++◌ "Calamares target is not eligible: "
            (joined (rejection_reasons minimum_disk_bytes d))))

abbrev pub guard_matches : List InstallDisk → Outcome InstallDisk
guard_matches (d ∷ []) = guard_disk d
guard_matches _ = raised (value_error "Calamares target is missing or no longer unique")

-- guard_calamares_erase_transaction
unfoldable pub guard_calamares_erase_transaction :
    List InstallDisk → String → String → String → Outcome InstallDisk
guard_calamares_erase_transaction disks device_node encrypted filesystem = do
  reject_if (not (is_device_node device_node)) "invalid Calamares target device"
  reject_if (not (str_eq encrypted "true")) "voice whole-disk installation requires encryption"
  reject_if (not (str_eq filesystem "btrfs")) "voice whole-disk installation requires btrfs"
  guard_matches (filter (λ d. str_eq d.path device_node) disks)
