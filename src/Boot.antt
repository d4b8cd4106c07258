-- ===== src/Boot.antt =====
-- The boot that chains image, volume and overlay container: decomp/src/boot/boot.c.
pub mod Image
use gt2_recomp.Prelude.{
  ℕ, Bool, Option, none, some, List, Outcome, ok, err, ◌>>=◌, ◌>>◌, guard, or_fail, leb, not,
  if◌then◌else◌,
}
use gt2_recomp.Cd.{File, Cd, open_cd}
use gt2_recomp.Vol.{Vol, Alloc, open_vol}
use gt2_recomp.Inflate.{Zlib}
use gt2_recomp.Ovl.{Ovl, Read, members, open_ovl, read_member}

-- gt2_boot_status_t without its OK
pub data BootStatus : Type 0 where
  io no_mem inval bad_image : BootStatus

-- struct gt2_boot
pub record Boot : Type 0 where
  pub cd : Cd
  pub vol : Vol
  pub ovl : Ovl

-- Which allocations of the boot and of the modules that it calls succeed.
pub record Grants : Type 0 where
  pub boot : Bool
  pub cd : Bool
  pub vol : Alloc
  pub ovl : Bool

-- gt2_boot_open. The path is opened twice, by gt2_cd_open and by gt2_vol_open: `first` and `second`
-- are what fopen returns.
unfoldable pub boot_open : Option File → Option File → Grants → Outcome BootStatus Boot
boot_open first second g = do
  guard g.boot no_mem
  cd ← or_fail io (open_cd first g.cd)
  vol ← or_fail bad_image (open_vol second g.vol)
  ovl ← or_fail bad_image (open_ovl cd g.ovl)
  ok (record { cd = cd; vol = vol; ovl = ovl })

abbrev loaded : Option Read → Option (Outcome BootStatus (List ℕ × ℕ))
loaded none = none
loaded (some o) = some (or_fail io o)

-- gt2_boot_load_overlay, `none` when the fuel of the inflate loop runs out
unfoldable pub load_overlay : ℕ → Zlib → Boot → Alloc → ℕ → Option (Outcome BootStatus (List ℕ × ℕ))
load_overlay fuel z b alloc idx =
    if leb members idx then some (err inval) else loaded (read_member fuel z b.ovl alloc idx)
