-- ===== src/Tests/InstallerRuns.antt =====
-- Runs of the theorems on src/clausis/installer.py.
use clausis.Prelude.{◌≡◌, ◌↔◌, ◌⊎◌, refl, String, true, false, [], ◌∷◌, some, filter, str_eq, elem}
use clausis.Prelude.Int.{pos, ◌≤ℤ◌}
use clausis.Outcome.{ok}
use clausis.Text.{
  starts_with, after_prefix, split_on, casefold, text_eq, runs, join_with, pieces, nonempty,
}
use clausis.Confirmation.Phrase.{same_phrase, normalized_phrase, compare_texts}
use clausis.Installer.Disks.{
  InstallDisk, rejection_reasons, eligible, has_stable_id, is_device_node, serial_suffix,
  guard_calamares_erase_transaction, minimum_disk_bytes,
}
use clausis.Installer.Plan.{
  InstallerPlan, validate, bind_to, is_timezone, is_username, is_device, has_secret,
  cloud_providers,
}
use clausis.Installer.Challenge.{InstallConfirmationChallenge, confirm}
use clausis.Installer.Selection.{
  IsInstallable, rejection_reasons_iff, guard_calamares_erase_transaction_iff,
}
use clausis.Installer.Binding.{IsSameDisk, bind_to_sound, validate_sound}
use clausis.Tests.Fixtures.{ascii}

abbrev ssd : InstallDisk
ssd = record {
  path = "/dev/sda";
  stable_id = "/dev/disk/by-id/ata-1";
  size_bytes = pos 64000000000;
  model = "SSD";
  serial = "S123456";
  transport = "sata";
  removable = false;
  readonly = false;
  mountpoints = [];
  child_mountpoints = [];
  device_type = "disk";
}

abbrev plan : InstallerPlan
plan = record {
  locale = "de_DE.UTF-8";
  timezone = "Europe/Berlin";
  username = "eva";
  disk_id = "/dev/disk/by-id/ata-1";
  erase_disk = true;
  encryption = true;
  tpm_enroll = true;
  hermes_provider = "none";
  cloud_consent = false;
  recovery_key_exported = true;
  disk_bytes = pos 64000000000;
  disk_model = "SSD";
  disk_serial_suffix = "123456";
  filesystem = "btrfs";
  boot_mode = "uefi";
  metadata = [];
}

abbrev encrypted : String
encrypted = "true"

rejection_reasons_iff_example :
    (rejection_reasons minimum_disk_bytes ssd ≡ []) ↔ IsInstallable minimum_disk_bytes ssd
rejection_reasons_iff_example = rejection_reasons_iff minimum_disk_bytes ssd

guard_calamares_erase_transaction_iff_example :
    (guard_calamares_erase_transaction (ssd ∷ []) "/dev/sda" encrypted plan.filesystem ≡ ok ssd) ↔ (
      (filter (λ (e : InstallDisk). str_eq e.path "/dev/sda") (ssd ∷ []) ≡ ssd ∷ [])
      × IsInstallable minimum_disk_bytes ssd
      × (is_device_node "/dev/sda" ≡ true)
      × (encrypted ≡ "true")
      × (plan.filesystem ≡ "btrfs"))
guard_calamares_erase_transaction_iff_example =
    guard_calamares_erase_transaction_iff (ssd ∷ []) "/dev/sda" encrypted plan.filesystem ssd

plan-validated : validate plan ≡ ok tt
unfolding validate is_timezone is_username is_device has_secret split_on after_prefix
plan-validated = refl

plan-bound : bind_to plan (ssd ∷ []) ≡ ok ssd
unfolding bind_to validate is_timezone is_username is_device has_secret split_on after_prefix
    eligible rejection_reasons has_stable_id starts_with serial_suffix
plan-bound = refl

bind_to_sound_example :
    (validate plan ≡ ok tt)
    × (filter (λ (e : InstallDisk). str_eq e.stable_id "/dev/disk/by-id/ata-1") (ssd ∷ [])
        ≡ ssd ∷ [])
    × IsInstallable minimum_disk_bytes ssd
    × IsSameDisk plan ssd
bind_to_sound_example = bind_to_sound plan (ssd ∷ []) ssd plan-bound

validate_sound_example :
    (true ≡ true)
    × ((true ≡ false) ⊎ (true ≡ true))
    × ((elem "none" cloud_providers ≡ false) ⊎ (false ≡ true))
    × (pos 0 ≤ℤ pos 64000000000)
    × (has_secret [] ≡ false)
validate_sound_example = validate_sound plan plan-validated

abbrev challenge : InstallConfirmationChallenge
challenge = record { ttl = 120000000; phrase = some "anker mond 123"; expires_at = 120000000 }

answered : (confirm 5 "Anker Mond 123." challenge).0 ≡ ok true
unfolding confirm same_phrase normalized_phrase compare_texts text_eq casefold runs join_with pieces
    nonempty
answered = refl

phrases_match : same_phrase "Anker Mond 123." "anker mond 123" ≡ ok true
unfolding same_phrase normalized_phrase compare_texts text_eq casefold runs join_with pieces
    nonempty
phrases_match = refl
