-- ===== src/Tests/ImageTests.antt =====
-- The boot over the small disc.
use gt2_recomp.Prelude.{◌≡◌, refl, true, some, none, ok, err}
use gt2_recomp.Bytes.{zeros}
use gt2_recomp.Cd.{read_sector, pread, open_cd}
use gt2_recomp.Iso.{stat, root_dir, skip_slashes, scan_dir, scan_sector, has_slash}
use gt2_recomp.Vol.{open_vol, parse_tables, read_at}
use gt2_recomp.Vol.Source.{src}
use gt2_recomp.Ovl.{open_ovl, checked, handle_of}
use gt2_recomp.Boot.{Boot, Grants, boot_open, io}
use gt2_recomp.Boot.Image.{OneImage, boot_open-OneImage}
use gt2_recomp.Tests.Disc.{disc, disc_file, disc-IsByte}
use gt2_recomp.Tests.Samples.{extent_vol}

abbrev all_granted : Grants
all_granted = record { boot = true; cd = true; vol = λ n. true; ovl = true }

no_file : boot_open none none all_granted ≡ err io
unfolding boot_open open_cd
no_file = refl

abbrev booted : Boot
unfolding boot_open open_cd open_vol open_ovl parse_tables
booted = elim (boot_open (some disc_file) (some disc_file) all_granted) [
  | ok b ↦ b
  | err e ↦ record { cd = disc; vol = extent_vol; ovl = handle_of disc 0 0 zeros }
]

boots : boot_open (some disc_file) (some disc_file) all_granted ≡ ok booted
unfolding boot_open open_cd open_vol open_ovl parse_tables stat root_dir scan_dir scan_sector
    skip_slashes has_slash read_sector pread checked read_at handle_of
boots = refl

boot_open-OneImage_example : OneImage disc_file booted
unfolding boot_open open_cd open_vol open_ovl parse_tables stat root_dir scan_dir scan_sector
    skip_slashes has_slash read_sector pread checked read_at src handle_of
boot_open-OneImage_example = boot_open-OneImage disc_file all_granted booted disc-IsByte boots
