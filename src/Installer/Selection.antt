-- ===== src/Installer/Selection.antt =====
-- Which disk the installer of src/clausis/installer.py selects.
use clausis.Prelude.{
  String, ◌≡◌, ◌↔◌, refl, ap, Bool, true, false, not, List, [], ◌∷◌, ◌++◌, arith, eq_iff, str_eq,
  filter, is_empty,
}
use clausis.Prelude.Int.{ℤ, ◌≤ℤ◌, leb_ℤ}
use clausis.Outcome.{reject_if, ok, >>=-eq-ok}
use clausis.Installer.Disks.{
  InstallDisk, rejection_reasons, reason_if, mount_reasons, has_stable_id, eligible, is_device_node,
  minimum_disk_bytes, guard_matches, guard_calamares_erase_transaction,
}

-- A disk that may be erased: a whole, writable, fixed disk of sufficient size, with a stable identity,
-- that neither itself nor in a part is mounted.
pub record IsInstallable (minimum : ℤ) (d : InstallDisk) : Type 0 where
  pub whole : d.device_type ≡ "disk"
  pub writable : d.readonly ≡ false
  pub fixed : d.removable ≡ false
  pub large : minimum ≤ℤ d.size_bytes
  pub unmounted : d.mountpoints ≡ []
  pub unmounted_parts : d.child_mountpoints ≡ []
  pub identified : has_stable_id d ≡ true

no_reason :
    (b : Bool) (s : String) (rest : List String)
    → (reason_if b s ++ rest) ≡ []
    → (b ≡ false) × (rest ≡ [])
no_reason true s rest h = absurd (cc h)
no_reason false s rest h = (refl, h)

no_mount_reason :
    (own parts rest : List String)
    → (mount_reasons (own ++ parts) ++ rest) ≡ []
    → (own ≡ []) × (parts ≡ []) × (rest ≡ [])
no_mount_reason [] [] rest h = (refl, refl, h)
no_mount_reason [] (m ∷ ms) rest h = absurd (cc h)
no_mount_reason (m ∷ ms) parts rest h = absurd (cc h)

no_last_reason : (b : Bool) (s : String) → reason_if b s ≡ [] → b ≡ false
no_last_reason true s h = absurd (cc h)
no_last_reason false s h = refl

-- The list of reasons is empty exactly for a disk that may be erased.
pub rejection_reasons_iff :
    (minimum : ℤ) (d : InstallDisk) → (rejection_reasons minimum d ≡ []) ↔ IsInstallable minimum d
unfolding rejection_reasons has_stable_id
rejection_reasons_iff minimum d = (
  λ h.
      let (a, h) = no_reason (not (str_eq d.device_type "disk")) _ _ h in
      let (b, h) = no_reason d.readonly _ _ h in
      let (c, h) = no_reason d.removable _ _ h in
      let (e, h) = no_reason (not (leb_ℤ minimum d.size_bytes)) _ _ h in
      let (f, g, h) = no_mount_reason d.mountpoints d.child_mountpoints _ h in
      let i = no_last_reason (not (has_stable_id d)) _ h in
      record {
        whole = (eq_iff d.device_type "disk").0 (ground arith);
        writable = b;
        fixed = c;
        large = ground arith;
        unmounted = f;
        unmounted_parts = g;
        identified = ground arith;
      },
  λ k.
      rw
        (
          (eq_iff d.device_type "disk").1 k.whole,
          k.writable,
          k.fixed,
          k.unmounted,
          k.unmounted_parts,
          k.identified,
        )
        (ground (arith, k.large)),
)

pub eligible_iff : (d : InstallDisk) → (eligible d ≡ true) ↔ IsInstallable minimum_disk_bytes d
unfolding eligible
eligible_iff d =
    let reasons = rejection_reasons_iff minimum_disk_bytes d in
    (
      λ h. reasons.0 (empty (rejection_reasons minimum_disk_bytes d) h),
      λ k. ap is_empty (reasons.1 k),
    )
  where
    empty : (l : List String) → is_empty l ≡ true → l ≡ []
    empty [] h = refl
    empty (s ∷ l) h = absurd (cc h)

-- What the last check of the guard needs of the disks with the path.
guard_matches_lem :
    (l : List InstallDisk) (d : InstallDisk)
    → guard_matches l ≡ ok d
    → (l ≡ d ∷ []) × (eligible d ≡ true)
guard_matches_lem [] d h = absurd (cc h)
guard_matches_lem (e ∷ []) d h = ground arith
guard_matches_lem (e ∷ (f ∷ l)) d h = absurd (cc h)

-- The guard lets a disk be erased exactly if it is the only one with the path, may be erased, and the
-- encrypted Btrfs installation was chosen for a well-formed device node.
pub guard_calamares_erase_transaction_iff :
    (disks : List InstallDisk) (node encrypted filesystem : String) (d : InstallDisk)
    → (guard_calamares_erase_transaction disks node encrypted filesystem ≡ ok d) ↔ (
        (filter (λ e. str_eq e.path node) disks ≡ d ∷ [])
        × IsInstallable minimum_disk_bytes d
        × (is_device_node node ≡ true)
        × (encrypted ≡ "true")
        × (filesystem ≡ "btrfs"))
unfolding guard_calamares_erase_transaction
guard_calamares_erase_transaction_iff disks node encrypted filesystem d = (forward, backward)
  where
    chosen : List InstallDisk
    chosen = filter (λ e. str_eq e.path node) disks

    forward :
        guard_calamares_erase_transaction disks node encrypted filesystem ≡ ok d
        → (chosen ≡ d ∷ [])
          × IsInstallable minimum_disk_bytes d
          × (is_device_node node ≡ true)
          × (encrypted ≡ "true")
          × (filesystem ≡ "btrfs")
    forward h =
        let (_, n, h) = >>=-eq-ok (reject_if (not (is_device_node node)) _) _ h in
        let (_, e, h) = >>=-eq-ok (reject_if (not (str_eq encrypted "true")) _) _ h in
        let (_, f, h) = >>=-eq-ok (reject_if (not (str_eq filesystem "btrfs")) _) _ h in
        let (only, fit) = guard_matches_lem chosen d h in
        (
          only,
          (eligible_iff d).0 fit,
          ground arith,
          (eq_iff encrypted "true").0 (ground arith),
          (eq_iff filesystem "btrfs").0 (ground arith),
        )

    backward :
        (chosen ≡ d ∷ [])
          × IsInstallable minimum_disk_bytes d
          × (is_device_node node ≡ true)
          × (encrypted ≡ "true")
          × (filesystem ≡ "btrfs")
        → guard_calamares_erase_transaction disks node encrypted filesystem ≡ ok d
    backward (only, fit, n, e, f) =
        let enc = (eq_iff encrypted "true").1 e in
        let fs = (eq_iff filesystem "btrfs").1 f in
        let good = (eligible_iff d).1 fit in rw (n, enc, fs, only, good) refl
