-- ===== src/Installer/Plan.antt =====
-- `InstallerPlan` of src/clausis/installer.py, with `validate` and `bind_to`.
use clausis.Prelude.{
  ℕ, ◌+◌, String, Bool, false, ◌&&◌, ◌||◌, not, List, [], ◌∷◌, none, some, ◌==◌, leb, any, all,
  filter, is_empty, length, elem, str_eq,
}
use clausis.Prelude.Int.{ℤ, pos, pos_part, neg_part, leb_ℤ}
use clausis.Outcome.{Outcome, ok, raised, value_error, reject_if, ◌>>◌}
use clausis.Stdlib.{Stdlib, Text}
use clausis.Text.{codes, after_prefix, split_on, casefold, text_elem}
use clausis.Installer.Disks.{InstallDisk, eligible, serial_suffix}

pub record InstallerPlan : Type 0 where
  pub locale : String
  pub timezone : String
  pub username : String
  pub disk_id : String
  pub erase_disk : Bool
  pub encryption : Bool
  pub tpm_enroll : Bool
  pub hermes_provider : String
  pub cloud_consent : Bool
  pub recovery_key_exported : Bool
  pub disk_bytes : ℤ
  pub disk_model : String
  pub disk_serial_suffix : String
  pub filesystem : String
  pub boot_mode : String
  pub metadata : List (String × String)

abbrev pub locales : List String
locales = "de_DE.UTF-8" ∷ "en_GB.UTF-8" ∷ "en_US.UTF-8" ∷ []

abbrev pub filesystems : List String
filesystems = "btrfs" ∷ "ext4" ∷ []

abbrev pub boot_modes : List String
boot_modes = "uefi" ∷ "bios" ∷ []

abbrev pub providers : List String
providers = "none" ∷ "nous" ∷ "openai-compatible" ∷ "local" ∷ []

abbrev pub cloud_providers : List String
cloud_providers = "nous" ∷ "openai-compatible" ∷ []

abbrev is_lower : ℕ → Bool
is_lower c = leb b'a' c && leb c b'z'

abbrev is_number : ℕ → Bool
is_number c = leb b'0' c && leb c b'9'

abbrev is_area_mark : ℕ → Bool
is_area_mark c = leb b'A' c && leb c b'Z' || is_lower c || c == b'_' || c == b'+' || c == b'-'

abbrev is_place_mark : ℕ → Bool
is_place_mark c = is_area_mark c || is_number c || c == b'.'

abbrev word_of : (ℕ → Bool) → Text → Bool
word_of p s = not (is_empty s) && all p s

abbrev area_and_places : List Text → Bool
area_and_places [] = false
area_and_places (area ∷ []) = false
area_and_places (area ∷ (place ∷ places)) =
    word_of is_area_mark area && all (word_of is_place_mark) (place ∷ places)

-- TIMEZONE_RE
unfoldable pub is_timezone : String → Bool
is_timezone s = area_and_places (split_on b'/' (codes s))

abbrev username_text : Text → Bool
username_text [] = false
username_text (c ∷ s) =
    (is_lower c || c == b'_')
    && all (λ d. is_lower d || is_number d || d == b'_' || d == b'-') s
    && leb (length s) 31

-- USERNAME_RE
unfoldable pub is_username : String → Bool
is_username s = username_text (codes s)

abbrev is_device_mark : ℕ → Bool
is_device_mark c = is_place_mark c || c == b':'

abbrev device_name : Text → Bool
device_name s = elim (after_prefix (codes "disk/by-id/") s) [
  | none ↦ word_of is_device_mark s
  | some name ↦ word_of is_device_mark name
]

-- DEVICE_RE
unfoldable pub is_device : String → Bool
is_device s = elim (after_prefix (codes "/dev/") (codes s)) [
  | none ↦ false
  | some name ↦ device_name name
]

abbrev forbidden_keys : List Text
forbidden_keys =
    codes "password"
    ∷ codes "passphrase"
    ∷ codes "pin"
    ∷ codes "api_key"
    ∷ codes "token"
    ∷ codes "voiceprint"
    ∷ []

abbrev pub eq_ℤ : ℤ → ℤ → Bool
eq_ℤ a b = pos_part a + neg_part b == pos_part b + neg_part a

abbrev pub is_zero : ℤ → Bool
is_zero a = eq_ℤ a (pos 0)

module _ ⦃py : Stdlib⦄ where
  unfoldable pub has_secret : List (String × String) → Bool
  has_secret metadata = any (λ entry. text_elem (casefold (codes entry.0)) forbidden_keys) metadata

  -- InstallerPlan.validate
  unfoldable pub validate : InstallerPlan → Outcome (Unit {0})
  validate p = do
    reject_if (not (elem p.locale locales)) "unsupported locale"
    reject_if (not (is_timezone p.timezone)) "invalid timezone"
    reject_if (not (is_username p.username)) "invalid username"
    reject_if (not (is_device p.disk_id)) "invalid disk identifier"
    reject_if (not p.erase_disk) "voice-native mode currently supports whole-disk installation only"
    reject_if (not (elem p.filesystem filesystems)) "unsupported filesystem"
    reject_if (not (elem p.boot_mode boot_modes)) "unsupported boot mode"
    reject_if (not (leb_ℤ (pos 0) p.disk_bytes)) "invalid disk size"
    reject_if (not (elem p.hermes_provider providers)) "unsupported Hermes provider"
    reject_if (elem p.hermes_provider cloud_providers && not p.cloud_consent)
        "cloud provider requires explicit consent"
    reject_if (p.encryption && not p.recovery_key_exported)
        "encrypted installation requires an exported recovery key"
    reject_if (has_secret p.metadata)
        "installer plan must not contain secrets or biometric templates"

  abbrev pub bind_disk : InstallerPlan → InstallDisk → Outcome InstallDisk
  bind_disk p d = do
    reject_if (not (eligible d)) "selected disk is no longer eligible"
    reject_if (not (is_zero p.disk_bytes) && not (eq_ℤ p.disk_bytes d.size_bytes))
        "selected disk size changed"
    reject_if
        (not (str_eq p.disk_serial_suffix "")
          && not (str_eq p.disk_serial_suffix (serial_suffix d)))
        "selected disk serial identity changed"
    ok d

  abbrev pub bind_matches : InstallerPlan → List InstallDisk → Outcome InstallDisk
  bind_matches p (d ∷ []) = bind_disk p d
  bind_matches p _ = raised (value_error "selected disk is missing or no longer unique")

  -- InstallerPlan.bind_to
  unfoldable pub bind_to : InstallerPlan → List InstallDisk → Outcome InstallDisk
  bind_to p disks = do validate p; bind_matches p (filter (λ d. str_eq d.stable_id p.disk_id) disks)
