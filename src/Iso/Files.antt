-- ===== src/Iso/Files.antt =====
-- What gt2_iso_read returns: the bytes of the image that the found entry names.
use gt2_recomp.Prelude.{
  ℕ, ◌+◌, ◌*◌, ◌/◌, ◌%◌, ◌^◌, ◌<◌, ◌≡◌, refl, ◌∙◌, Bool, true, false, List, ok, ◌==◌, ◌≢◌, arith,
  Bool-cases, inl, inr,
}
use gt2_recomp.Bytes.{Bytes, zeros, u32}
use gt2_recomp.Cd.{Cd, sector_size, pread}
use gt2_recomp.Cd.Pread.{cooked, Readable, stored}
use gt2_recomp.Iso.{IsoEntry, stat, read_entry, iso_read}

read_stored :
    (cd : Cd) (e : IsoEntry) (buf : Bytes)
    → (e.flags / 2 % 2 == 1) ≡ false
    → (e.size == 0) ≡ false
    → pread cd (u32 (e.extent_lba * sector_size)) zeros e.size ≡ ok buf
    → read_entry cd true e ≡ ok (buf, e.size)
unfolding read_entry
read_stored cd e buf d z p = rw (d, z, p) refl

read_nothing :
    (cd : Cd) (e : IsoEntry)
    → (e.flags / 2 % 2 == 1) ≡ false
    → (e.size == 0) ≡ true
    → read_entry cd true e ≡ ok (zeros, e.size)
unfolding read_entry
read_nothing cd e d z = rw (d, z) refl

stat_then :
    (cd : Cd) (given : List ℕ) (granted : Bool) (e : IsoEntry)
    → stat cd given ≡ ok e
    → iso_read cd given granted ≡ read_entry cd granted e
unfolding iso_read
stat_then cd given granted e h = rw h refl

-- If gt2_iso_stat finds an entry, not a directory, whose extent lies in the first 4 GiB of the image
-- and can be read, then with memory granted gt2_iso_read returns as many bytes as the entry says,
-- those of the image from the start of the extent on.
pub iso_read-stat :
    (cd : Cd) (given : List ℕ) (e : IsoEntry)
    → stat cd given ≡ ok e
    → e.flags / 2 % 2 ≢ 1
    → e.extent_lba * sector_size + e.size < 2 ^ 32
    → Readable cd (e.extent_lba * sector_size) e.size
    → (buf : Bytes) × (iso_read cd given true ≡ ok (buf, e.size))
      × ((k : ℕ) → k < e.size → buf k ≡ cooked cd (e.extent_lba * sector_size + k))
iso_read-stat cd given e s d w r =
    let open_entry = stat_then cd given true e s in
    let file : (e.flags / 2 % 2 == 1) ≡ false = ground arith in
    elim (Bool-cases (e.size == 0)) [
      | inl empty ↦ (zeros, open_entry ∙ read_nothing cd e file empty, λ k l. absurd (ground arith))
      | inr full ↦
          let (buf, p, f) = stored cd (e.extent_lba * sector_size) e.size w r in
          (buf, open_entry ∙ read_stored cd e buf file full p, f)
    ]
