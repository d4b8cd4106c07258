-- ===== src/Iso/Listed.antt =====
-- The first record of the root directory that has a name, and the scan for it.
use gt2_recomp.Prelude.{
  ℕ, zero, suc, ◌+◌, ◌-◌, ◌≤◌, ◌<◌, ◌≡◌, refl, ◌∙◌, false, Option, none, some, List, Outcome, ok,
  err, ◌==◌, arith, ok-injective,
}
use gt2_recomp.Bytes.{Bytes, u32}
use gt2_recomp.Cd.{Cd, CdStatus, sector_size, read_sector}
use gt2_recomp.Iso.{IsoStatus, io, not_found, IsoEntry, scan_sector, scan_dir}
use gt2_recomp.Iso.Records.{
  InSector, Lacks, scan_sector-InSector, InSector-scan_sector, scan_sector-Lacks, scan_sector-err,
  Lacks-scan_sector,
}

-- `e` is the first record with the name in the directory of `left` bytes from the sector `cur` on.
pub data InDir (cd : Cd) (path : List ℕ) (e : IsoEntry) : ℕ → ℕ → Type 0 where
  here :
      {cur left : ℕ} (sec : Bytes)
      → 0 < left
      → read_sector cd cur ≡ ok sec
      → InSector sec path e 0
      → InDir cd path e cur left
  later :
      {cur left : ℕ} (sec : Bytes)
      → 0 < left
      → read_sector cd cur ≡ ok sec
      → Lacks sec path 0
      → InDir cd path e (u32 (cur + 1)) (left - sector_size)
      → InDir cd path e cur left

-- No record with the name is in the directory, whose sectors can all be read and are sound.
pub data NotInDir (cd : Cd) (path : List ℕ) : ℕ → ℕ → Type 0 where
  done : {cur : ℕ} → NotInDir cd path cur 0
  skip :
      {cur left : ℕ} (sec : Bytes)
      → 0 < left
      → read_sector cd cur ≡ ok sec
      → Lacks sec path 0
      → NotInDir cd path (u32 (cur + 1)) (left - sector_size)
      → NotInDir cd path cur left

positive : (n : ℕ) → 0 < n → (n == 0) ≡ false
positive n h = ground arith

module _ (f : ℕ) (cd : Cd) (path : List ℕ) (cur left : ℕ) (p : 0 < left) where
  round_hit :
      (sec : Bytes) (e : IsoEntry)
      → read_sector cd cur ≡ ok sec
      → scan_sector sector_size sec path 0 ≡ ok (some e)
      → scan_dir (suc f) cd path cur left ≡ ok e
  unfolding scan_dir
  round_hit sec e r h = rw (positive left p, r, h) refl

  round_later :
      (sec : Bytes)
      → read_sector cd cur ≡ ok sec
      → scan_sector sector_size sec path 0 ≡ ok none
      → scan_dir (suc f) cd path cur left ≡ scan_dir f cd path (u32 (cur + 1)) (left - sector_size)
  unfolding scan_dir
  round_later sec r h = rw (positive left p, r, h) refl

  round_unreadable :
      {s : CdStatus} → read_sector cd cur ≡ err s → scan_dir (suc f) cd path cur left ≡ err io
  unfolding scan_dir
  round_unreadable r = rw (positive left p, r) refl

  round_unsound :
      (sec : Bytes) {s : IsoStatus}
      → read_sector cd cur ≡ ok sec
      → scan_sector sector_size sec path 0 ≡ err s
      → scan_dir (suc f) cd path cur left ≡ err s
  unfolding scan_dir
  round_unsound sec r h = rw (positive left p, r, h) refl

scan_dir_done :
    (f : ℕ) (cd : Cd) (path : List ℕ) (cur : ℕ) → scan_dir f cd path cur 0 ≡ err not_found
unfolding scan_dir
scan_dir_done zero cd path cur = refl
scan_dir_done (suc f) cd path cur = refl

scan_dir_out :
    (cd : Cd) (path : List ℕ) (cur left : ℕ) → scan_dir 0 cd path cur left ≡ err not_found
unfolding scan_dir
scan_dir_out cd path cur left = refl

pub InDir-scan_dir :
    (f : ℕ) (cd : Cd) (path : List ℕ) (cur left : ℕ) (e : IsoEntry)
    → left ≤ f
    → InDir cd path e cur left
    → scan_dir f cd path cur left ≡ ok e
InDir-scan_dir zero cd path cur left e le (here sec p r i) = absurd (omega arith)
InDir-scan_dir zero cd path cur left e le (later sec p r l i) = absurd (omega arith)
InDir-scan_dir (suc f) cd path cur left e le (here sec p r i) =
    round_hit f cd path cur left p sec e r
      (InSector-scan_sector sector_size sec path 0 e (omega arith) i)
InDir-scan_dir (suc f) cd path cur left e le (later sec p r l i) =
    round_later f cd path cur left p sec r
      (Lacks-scan_sector sector_size sec path 0 (omega arith) l)
    ∙ InDir-scan_dir f cd path (u32 (cur + 1)) (left - sector_size) e (omega arith) i

pub NotInDir-scan_dir :
    (f : ℕ) (cd : Cd) (path : List ℕ) (cur left : ℕ)
    → left ≤ f
    → NotInDir cd path cur left
    → scan_dir f cd path cur left ≡ err not_found
NotInDir-scan_dir zero cd path cur left le done = scan_dir_done zero cd path cur
NotInDir-scan_dir (suc f) cd path cur left le done = scan_dir_done (suc f) cd path cur
NotInDir-scan_dir zero cd path cur left le (skip sec p r l n) = absurd (omega arith)
NotInDir-scan_dir (suc f) cd path cur left le (skip sec p r l n) =
    round_later f cd path cur left p sec r
      (Lacks-scan_sector sector_size sec path 0 (omega arith) l)
    ∙ NotInDir-scan_dir f cd path (u32 (cur + 1)) (left - sector_size) (omega arith) n

-- What a round over the sector `cur` leads to.
data Round (f : ℕ) (cd : Cd) (path : List ℕ) (cur left : ℕ)
    : Outcome IsoStatus IsoEntry → Type 0 where
  hit_in :
      (sec : Bytes) (e : IsoEntry)
      → read_sector cd cur ≡ ok sec
      → InSector sec path e 0
      → Round f cd path cur left (ok e)
  goes_on :
      (sec : Bytes)
      → read_sector cd cur ≡ ok sec
      → Lacks sec path 0
      → Round f cd path cur left (scan_dir f cd path (u32 (cur + 1)) (left - sector_size))
  fails : Round f cd path cur left (err io)

module _ (f : ℕ) (cd : Cd) (path : List ℕ) (cur left : ℕ) (p : 0 < left) where
  scanned :
      (sec : Bytes) (o : Outcome IsoStatus (Option IsoEntry))
      → read_sector cd cur ≡ ok sec
      → scan_sector sector_size sec path 0 ≡ o
      → Round f cd path cur left (scan_dir (suc f) cd path cur left)
  scanned sec (ok none) r h =
      rw (round_later f cd path cur left p sec r h)
        (goes_on sec r (scan_sector-Lacks sector_size sec path 0 (omega arith) h))
  scanned sec (ok (some e)) r h =
      rw (round_hit f cd path cur left p sec e r h)
        (hit_in sec e r (scan_sector-InSector sector_size sec path 0 e h))
  scanned sec (err s) r h =
      let q : s ≡ io = scan_sector-err sector_size sec path 0 s h in
      rw (round_unsound f cd path cur left p sec r h, q) fails

  round :
      (o : Outcome CdStatus Bytes)
      → read_sector cd cur ≡ o
      → Round f cd path cur left (scan_dir (suc f) cd path cur left)
  round (ok sec) r = scanned sec (scan_sector sector_size sec path 0) r refl
  round (err s) r = rw (round_unreadable f cd path cur left p r) fails

Round-InDir :
    (f : ℕ) (cd : Cd) (path : List ℕ) (cur left : ℕ) (e : IsoEntry) (o : Outcome IsoStatus IsoEntry)
    → 0 < left
    → (scan_dir f cd path (u32 (cur + 1)) (left - sector_size) ≡ ok e
        → InDir cd path e (u32 (cur + 1)) (left - sector_size))
    → Round f cd path cur left o
    → o ≡ ok e
    → InDir cd path e cur left
Round-InDir f cd path cur left e o p ih (hit_in sec d r i) h =
    here sec p r (rw (ok-injective h) at i)
Round-InDir f cd path cur left e o p ih (goes_on sec r l) h = later sec p r l (ih h)
Round-InDir f cd path cur left e o p ih fails h = cc h

Round-NotInDir :
    (f : ℕ) (cd : Cd) (path : List ℕ) (cur left : ℕ) (o : Outcome IsoStatus IsoEntry)
    → 0 < left
    → (scan_dir f cd path (u32 (cur + 1)) (left - sector_size) ≡ err not_found
        → NotInDir cd path (u32 (cur + 1)) (left - sector_size))
    → Round f cd path cur left o
    → o ≡ err not_found
    → NotInDir cd path cur left
Round-NotInDir f cd path cur left o p ih (hit_in sec d r i) h = cc h
Round-NotInDir f cd path cur left o p ih (goes_on sec r l) h = skip sec p r l (ih h)
Round-NotInDir f cd path cur left o p ih fails h = cc h

pub scan_dir-InDir :
    (f : ℕ) (cd : Cd) (path : List ℕ) (cur left : ℕ) (e : IsoEntry)
    → scan_dir f cd path cur left ≡ ok e
    → InDir cd path e cur left
scan_dir-InDir zero cd path cur left e h = cc (h, scan_dir_out cd path cur left)
scan_dir-InDir (suc f) cd path cur zero e h = cc (h, scan_dir_done (suc f) cd path cur)
scan_dir-InDir (suc f) cd path cur (suc n) e h =
    Round-InDir f cd path cur (suc n) e (scan_dir (suc f) cd path cur (suc n)) (omega arith)
      (scan_dir-InDir f cd path (u32 (cur + 1)) (suc n - sector_size) e)
      (round f cd path cur (suc n) (omega arith) (read_sector cd cur) refl) h

pub scan_dir-NotInDir :
    (f : ℕ) (cd : Cd) (path : List ℕ) (cur left : ℕ)
    → left ≤ f
    → scan_dir f cd path cur left ≡ err not_found
    → NotInDir cd path cur left
scan_dir-NotInDir f cd path cur zero le h = done
scan_dir-NotInDir zero cd path cur (suc n) le h = absurd (omega arith)
scan_dir-NotInDir (suc f) cd path cur (suc n) le h =
    Round-NotInDir f cd path cur (suc n) (scan_dir (suc f) cd path cur (suc n)) (omega arith)
      (scan_dir-NotInDir f cd path (u32 (cur + 1)) (suc n - sector_size) (omega arith))
      (round f cd path cur (suc n) (omega arith) (read_sector cd cur) refl) h
