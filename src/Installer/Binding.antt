-- ===== src/Installer/Binding.antt =====
-- What a validated plan of src/clausis/installer.py is bound to.
use clausis.Prelude.{
  String, ◌≡◌, ◌↔◌, ◌⊎◌, inl, inr, refl, ap, Bool, true, false, not, List, [], ◌∷◌, ◌&&◌, elem,
  arith, eq_iff, str_eq, leb→le, filter,
}
use clausis.Prelude.Int.{pos, ◌≤ℤ◌, leb_ℤ}
use clausis.Outcome.{reject_if, Outcome, ok, ◌>>◌, >>=-eq-ok}
use clausis.Stdlib.{Stdlib}
use clausis.Installer.Disks.{InstallDisk, eligible, minimum_disk_bytes, serial_suffix}
use clausis.Installer.Plan.{
  locales, filesystems, boot_modes, providers, is_timezone, is_username, is_device, cloud_providers,
  has_secret, InstallerPlan, validate, bind_to, bind_disk, bind_matches, eq_ℤ, is_zero,
}
use clausis.Installer.Selection.{IsInstallable, eligible_iff}

-- The identity that the plan recorded is still that of the disk, where it recorded one.
pub record IsSameDisk (p : InstallerPlan) (d : InstallDisk) : Type 0 where
  pub same_size : (is_zero p.disk_bytes ≡ true) ⊎ (eq_ℤ p.disk_bytes d.size_bytes ≡ true)
  pub same_serial : (p.disk_serial_suffix ≡ "") ⊎ (p.disk_serial_suffix ≡ serial_suffix d)

-- A check that was passed, and the rest.
accepted :
    (b : Bool) (m : String) (rest : Outcome (Unit {0}))
    → (reject_if b m >> rest) ≡ ok tt
    → (b ≡ false) × (rest ≡ ok tt)
accepted true m rest h = absurd (cc h)
accepted false m rest h = (refl, h)

module _ ⦃py : Stdlib⦄ where
  bind_disk_lem :
      (p : InstallerPlan) (e d : InstallDisk)
      → bind_disk p e ≡ ok d
      → (e ≡ d) × (eligible e ≡ true) × IsSameDisk p e
  bind_disk_lem p e d h =
      let (_, a, h) = >>=-eq-ok (reject_if (not (eligible e)) _) _ h in
      let (_, b, h) =
        >>=-eq-ok (reject_if (not (is_zero p.disk_bytes) && not (eq_ℤ p.disk_bytes e.size_bytes)) _)
          _ h in
      let (_, c, h) =
        >>=-eq-ok
          (reject_if
            (not (str_eq p.disk_serial_suffix "")
              && not (str_eq p.disk_serial_suffix (serial_suffix e)))
            _)
          _ h in
      (
        ground arith,
        ground arith,
        record {
          same_size = ground arith;
          same_serial =
              serial _ (eq_iff p.disk_serial_suffix "")
                (eq_iff p.disk_serial_suffix (serial_suffix e)) c;
        },
      )
    where
      serial :
          {a b : Bool} {A B : Type 0} (m : String)
          → ((a ≡ true) ↔ A)
          → ((b ≡ true) ↔ B)
          → reject_if (not a && not b) m ≡ ok tt
          → A ⊎ B
      serial {a = true} m f g h = inl (f.0 refl)
      serial {a = false} {b = true} m f g h = inr (g.0 refl)
      serial {a = false} {b = false} m f g h = absurd (cc h)

  bind_matches_lem :
      (p : InstallerPlan) (l : List InstallDisk) (d : InstallDisk)
      → bind_matches p l ≡ ok d
      → (l ≡ d ∷ []) × (eligible d ≡ true) × IsSameDisk p d
  bind_matches_lem p [] d h = absurd (cc h)
  bind_matches_lem p (e ∷ []) d h =
      let (same, fit, kept) = bind_disk_lem p e d h in
      (ap (λ (z : InstallDisk). z ∷ []) same, rw (← same) fit, rw (← same) kept)
  bind_matches_lem p (e ∷ (f ∷ l)) d h = absurd (cc h)

  -- A plan is bound to a disk only if the plan is valid, the disk is the only one with the plan's
  -- stable identity, it may be erased, and it has the size and the serial number that the plan
  -- recorded, where it recorded them.
  pub bind_to_sound :
      (p : InstallerPlan) (disks : List InstallDisk) (d : InstallDisk)
      → bind_to p disks ≡ ok d
      → (validate p ≡ ok tt)
        × (filter (λ e. str_eq e.stable_id p.disk_id) disks ≡ d ∷ [])
        × IsInstallable minimum_disk_bytes d
        × IsSameDisk p d
  unfolding bind_to
  bind_to_sound p disks d h =
      let (_, valid, h) = >>=-eq-ok (validate p) _ h in
      let (only, fit, kept) =
        bind_matches_lem p (filter (λ e. str_eq e.stable_id p.disk_id) disks) d h in
      (valid, only, (eligible_iff d).0 fit, kept)

  -- A valid plan erases the whole disk; with encryption its recovery key is exported, and with a cloud
  -- provider there is consent; its size is not negative, and no key of its metadata names a secret.
  pub validate_sound :
      (p : InstallerPlan)
      → validate p ≡ ok tt
      → (p.erase_disk ≡ true)
        × ((p.encryption ≡ false) ⊎ (p.recovery_key_exported ≡ true))
        × ((elem p.hermes_provider cloud_providers ≡ false) ⊎ (p.cloud_consent ≡ true))
        × (pos 0 ≤ℤ p.disk_bytes)
        × (has_secret p.metadata ≡ false)
  unfolding validate
  validate_sound p h =
      let (_, h) = accepted (not (elem p.locale locales)) _ _ h in
      let (_, h) = accepted (not (is_timezone p.timezone)) _ _ h in
      let (_, h) = accepted (not (is_username p.username)) _ _ h in
      let (_, h) = accepted (not (is_device p.disk_id)) _ _ h in
      let (erase, h) = accepted (not p.erase_disk) _ _ h in
      let (_, h) = accepted (not (elem p.filesystem filesystems)) _ _ h in
      let (_, h) = accepted (not (elem p.boot_mode boot_modes)) _ _ h in
      let (size, h) = accepted (not (leb_ℤ (pos 0) p.disk_bytes)) _ _ h in
      let (_, h) = accepted (not (elem p.hermes_provider providers)) _ _ h in
      let (cloud, h) =
        accepted (elem p.hermes_provider cloud_providers && not p.cloud_consent) _ _ h in
      let (key, h) = accepted (p.encryption && not p.recovery_key_exported) _ _ h in
      (
        needed p.erase_disk erase,
        unless p.encryption p.recovery_key_exported key,
        unless (elem p.hermes_provider cloud_providers) p.cloud_consent cloud,
        leb→le _ _ (needed (leb_ℤ (pos 0) p.disk_bytes) size),
        refused (has_secret p.metadata) _ h,
      )
    where
      needed : (b : Bool) → not b ≡ false → b ≡ true
      needed true h = refl
      needed false h = absurd (cc h)

      refused : (b : Bool) (m : String) → reject_if b m ≡ ok tt → b ≡ false
      refused true m h = absurd (cc h)
      refused false m h = refl

      unless : (a b : Bool) → (a && not b) ≡ false → (a ≡ false) ⊎ (b ≡ true)
      unless true true h = inr refl
      unless true false h = absurd (cc h)
      unless false b h = inl refl
