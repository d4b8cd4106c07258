-- ===== src/Iso/Stat.antt =====
-- What gt2_iso_stat returns.
use gt2_recomp.Prelude.{
  ℕ, ◌≤◌, ◌<◌, ◌≡◌, ◌↔◌, refl, sym, ◌∙◌, false, List, ok, err, ◌>>=◌, length, arith, lt→ltb, le→leb,
  >>=-eq-ok,
}
use gt2_recomp.Cd.{Cd}
use gt2_recomp.Iso.{
  not_found, IsoEntry, scan_dir, stat, root_dir, skip_slashes, has_slash, max_name,
}
use gt2_recomp.Iso.Listed.{
  InDir, NotInDir, scan_dir-InDir, InDir-scan_dir, scan_dir-NotInDir, NotInDir-scan_dir,
}

-- A path, its leading slashes skipped, that can be a name of the root directory.
pub record IsRootName (path : List ℕ) : Type 0 where
  pub some_letter : 0 < length path
  pub short : length path ≤ max_name
  pub flat : has_slash path ≡ false

stat_name :
    (cd : Cd) (given : List ℕ)
    → IsRootName (skip_slashes given)
    → stat cd given
      ≡ (root_dir cd >>= λ root. scan_dir root.1 cd (skip_slashes given) root.0 root.1)
unfolding stat
stat_name cd given n =
    rw
      (
        lt→ltb 0 (length (skip_slashes given)) n.some_letter,
        le→leb (length (skip_slashes given)) max_name n.short,
        n.flat,
      )
      refl

stat-IsRootName :
    (cd : Cd) (given : List ℕ) (e : IsoEntry)
    → stat cd given ≡ ok e
    → IsRootName (skip_slashes given)
unfolding stat
stat-IsRootName cd given e h = record {
  some_letter = ground arith;
  short = ground arith;
  flat = ground arith;
}

-- gt2_iso_stat returns an entry exactly if the path, its leading slashes skipped, is a name of 1 to
-- 255 bytes without a slash, the root directory is found, and the entry is that of the first record
-- there whose name is the path up to the case of letters, every sector up to it being readable and
-- sound.
pub stat-InDir_iff :
    (cd : Cd) (given : List ℕ) (e : IsoEntry)
    → (stat cd given ≡ ok e) ↔ (
        IsRootName (skip_slashes given)
        × ((root : ℕ × ℕ) × (root_dir cd ≡ ok root)
            × InDir cd (skip_slashes given) e root.0 root.1))
stat-InDir_iff cd given e = (
  λ h.
      let n = stat-IsRootName cd given e h in
      let (root, r, s) = >>=-eq-ok (root_dir cd) _ (sym (stat_name cd given n) ∙ h) in
      (n, (root, r, scan_dir-InDir root.1 cd (skip_slashes given) root.0 root.1 e s)),
  λ (n, (root, r, i)).
      stat_name cd given n
      ∙ rw r (InDir-scan_dir root.1 cd (skip_slashes given) root.0 root.1 e (omega arith) i),
)

-- For a name that can be in the root directory, and a root directory that is found, gt2_iso_stat
-- answers "not found" exactly if all sectors of the directory can be read and are sound and no
-- record there has the name.
pub stat-NotInDir_iff :
    (cd : Cd) (given : List ℕ) (root : ℕ × ℕ)
    → IsRootName (skip_slashes given)
    → root_dir cd ≡ ok root
    → (stat cd given ≡ err not_found) ↔ NotInDir cd (skip_slashes given) root.0 root.1
stat-NotInDir_iff cd given root n r =
    let opened : stat cd given ≡ scan_dir root.1 cd (skip_slashes given) root.0 root.1 =
      stat_name cd given n ∙ rw r refl in
    (
      λ h.
          scan_dir-NotInDir root.1 cd (skip_slashes given) root.0 root.1 (omega arith)
            (sym opened ∙ h),
      λ d. opened ∙ NotInDir-scan_dir root.1 cd (skip_slashes given) root.0 root.1 (omega arith) d,
    )
