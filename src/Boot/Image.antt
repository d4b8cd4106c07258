-- ===== src/Boot/Image.antt =====
-- What a boot that succeeds holds of the image.
use gt2_recomp.Prelude.{
  ℕ, ◌<◌, ◌≡◌, refl, ap, ◌∙◌, some, Outcome, ok, err, >>=-eq-ok, ok-injective, guard, or_fail,
  or_fail-eq-ok,
}
use gt2_recomp.Bytes.Laws.{IsByte}
use gt2_recomp.Cd.{File, Cd, CdStatus, open_cd}
use gt2_recomp.Cd.Opened.{Opened, open_cd-Opened, Opened-unique}
use gt2_recomp.Vol.{Vol, no_mem, Alloc, image, open_image, open_vol, parse_tables}
use gt2_recomp.Vol.Source.{src}
use gt2_recomp.Vol.Parsed.{Parsed, parse_tables-Parsed}
use gt2_recomp.Ovl.{members, open_ovl}
use gt2_recomp.Ovl.Layout.{Checked, open_ovl-Checked, open_ovl-cd}
use gt2_recomp.Boot.{Boot, Grants, boot_open, io, bad_image, no_mem as boot_no_mem}

-- Volume and container of the boot stand on one image, and hold what its bytes say.
pub record OneImage (f : File) (b : Boot) : Type 0 where
  pub own : Opened f b.cd
  pub vol : Parsed (image b.cd) b.vol
  pub ovl : b.ovl.cd ≡ b.cd
  pub members_checked : (i : ℕ) → i < members → Checked b.ovl i

open_image-parses :
    (alloc : Alloc) (o : Outcome CdStatus Cd) (v : Vol)
    → open_image alloc o ≡ ok v
    → (cd : Cd) × (o ≡ ok cd) × (parse_tables (image cd) alloc ≡ ok v)
open_image-parses alloc (err e) v h = cc h
open_image-parses alloc (ok cd) v h = (cd, refl, (>>=-eq-ok (guard (alloc 4) no_mem) _ h).2)

-- gt2_vol_open makes a cd handle of its own.
open_vol-parses :
    (f : File) (alloc : Alloc) (v : Vol)
    → open_vol (some f) alloc ≡ ok v
    → (cd : Cd) × Opened f cd × (parse_tables (image cd) alloc ≡ ok v)
unfolding open_vol
open_vol-parses f alloc v h =
    let (cd, e, p) = open_image-parses alloc (open_cd (some f) (alloc 3)) v h in
    (cd, open_cd-Opened f (alloc 3) cd e, p)

boot_parts :
    (f : File) (g : Grants) (b : Boot)
    → boot_open (some f) (some f) g ≡ ok b
    → (open_cd (some f) g.cd ≡ ok b.cd)
      × (open_vol (some f) g.vol ≡ ok b.vol)
      × (open_ovl b.cd g.ovl ≡ ok b.ovl)
unfolding boot_open
boot_parts f g b h =
    let (u, s0, h0) = >>=-eq-ok (guard g.boot boot_no_mem) _ h in
    let (cd, s1, h1) = >>=-eq-ok (or_fail io (open_cd (some f) g.cd)) _ h0 in
    let (vol, s2, h2) = >>=-eq-ok (or_fail bad_image (open_vol (some f) g.vol)) _ h1 in
    let (ovl, s3, h3) = >>=-eq-ok (or_fail bad_image (open_ovl cd g.ovl)) _ h2 in
    let made = ok-injective h3 in
    let own : cd ≡ b.cd = ap (λ (x : Boot). x.cd) made in
    (
      or_fail-eq-ok io (open_cd (some f) g.cd) s1 ∙ ap ok own,
      or_fail-eq-ok bad_image (open_vol (some f) g.vol) s2 ∙ ap ok (ap (λ (x : Boot). x.vol) made),
      rw own at (or_fail-eq-ok bad_image (open_ovl cd g.ovl) s3)
          ∙ ap ok (ap (λ (x : Boot). x.ovl) made),
    )

-- If both of the boot's fopen calls give the same file of bytes and gt2_boot_open succeeds, then the
-- volume and the overlay container read one image, that of the boot's own handle, whose flavour is
-- that of the file's size; the volume's tables are those that the image's bytes say, and every member
-- of the container has passed the sanity loop.
pub boot_open-OneImage :
    (f : File) (g : Grants) (b : Boot)
    → IsByte (src (image b.cd))
    → boot_open (some f) (some f) g ≡ ok b
    → OneImage f b
boot_open-OneImage f g b bytes h =
    let (c, v, o) = boot_parts f g b h in
    let own = open_cd-Opened f g.cd b.cd c in
    let (cd, its, p) = open_vol-parses f g.vol b.vol v in
    record {
      own = own;
      vol =
          parse_tables-Parsed (image b.cd) g.vol b.vol bytes
            (rw (Opened-unique f b.cd cd own its) p);
      ovl = open_ovl-cd b.cd g.ovl b.ovl o;
      members_checked = open_ovl-Checked b.cd g.ovl b.ovl o;
    }
