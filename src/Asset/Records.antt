-- ===== src/Asset/Records.antt =====
-- gt2_crs_find over the records that gt2_crsinfo_parse read from a window.
use gt2_recomp.Prelude.{
  ℕ, zero, suc, ◌+◌, ◌*◌, ◌-◌, ◌/◌, ◌^◌, ◌<◌, ◌≤◌, ◌≡◌, ◌≢◌, refl, Option, none, some, List, ok,
  arith, ◌==◌, Bool-cases, inl, inr, ==→eq, ==→ne,
}
use gt2_recomp.Bytes.{Bytes, le16, le32, u32}
use gt2_recomp.Asset.{CrsRec, crs_rec, crs_recs, crsinfo_parse, crs_find_from, crs_find}

-- the name hash of record `i` of a window
abbrev pub hash_at : Bytes → ℕ → ℕ
hash_at d i = le32 d (8 + i * 0x18 + 4)

-- the first of the records `[from, to)` with the hash
pub data FirstRecord (d : Bytes) (from to hash : ℕ) : Option ℕ → Type 0 where
  found :
      (i : ℕ)
      → from ≤ i
      → i < to
      → hash_at d i ≡ hash
      → ((j : ℕ) → from ≤ j → j < i → hash_at d j ≢ hash)
      → FirstRecord d from to hash (some i)
  absent : ((j : ℕ) → from ≤ j → j < to → hash_at d j ≢ hash) → FirstRecord d from to hash none

FirstRecord-suc :
    (d : Bytes) (from to hash : ℕ) (o : Option ℕ)
    → hash_at d from ≢ hash
    → FirstRecord d (from + 1) to hash o
    → FirstRecord d from to hash o
FirstRecord-suc d from to hash none ne (absent h) = absent (λ j lo hi.
    elim (Bool-cases (j == from)) [
      | inl here ↦ let e : j ≡ from = ==→eq j from here in rw e ne
      | inr other ↦ h j (omega (arith, ==→ne j from other)) hi
    ])
FirstRecord-suc d from to hash (some _) ne (found i lo hi e h) =
    found i (omega arith) hi e (λ j a b. elim (Bool-cases (j == from)) [
      | inl here ↦ let eq : j ≡ from = ==→eq j from here in rw eq ne
      | inr other ↦ h j (omega (arith, ==→ne j from other)) b
    ])

crs_rec-hash : (d : Bytes) (i : ℕ) → 8 + i * 0x18 < 2 ^ 32 → (crs_rec d i).hash ≡ hash_at d i
unfolding crs_rec
crs_rec-hash d i h = let e : u32 (8 + i * 0x18) ≡ 8 + i * 0x18 = omega arith in rw e refl

crs_find_from-FirstRecord :
    (n : ℕ) (d : Bytes) (i hash : ℕ)
    → 8 + (i + n) * 0x18 < 2 ^ 32
    → FirstRecord d i (i + n) hash (crs_find_from (crs_recs n d i) i hash)
unfolding crs_recs crs_find_from
crs_find_from-FirstRecord zero d i hash small = absent (λ j lo hi. absurd (omega arith))
crs_find_from-FirstRecord (suc n) d i hash small =
    let at = crs_rec-hash d i (omega arith) in
    let e : i + suc n ≡ i + 1 + n = omega arith in
    elim (Bool-cases (hash_at d i == hash)) [
      | inl here ↦
          rw (at, here)
            (found i (omega arith) (omega arith) (==→eq (hash_at d i) hash here)
              (λ j lo hi. absurd (omega arith)))
      | inr on ↦
          let rest = crs_find_from-FirstRecord n d (i + 1) hash (omega arith) in
          rw (at, on, e)
            (FirstRecord-suc d i (i + 1 + n) hash
              (crs_find_from (crs_recs n d (i + 1)) (i + 1) hash) (==→ne (hash_at d i) hash on)
              rest)
    ]

crsinfo_parse-parts :
    (d : Bytes) (len limit : ℕ) (recs : List CrsRec)
    → crsinfo_parse d len limit ≡ ok recs
    → (8 ≤ len)
      × (le16 d 6 ≤ (len - 8) / 0x18)
      × (le16 d 6 ≤ limit)
      × (crs_recs (le16 d 6) d 0 ≡ recs)
unfolding crsinfo_parse
crsinfo_parse-parts d len limit recs h = (ground arith, ground arith, ground arith, ground arith)

-- Of a window that gt2_crsinfo_parse accepts, of a length that a u32 holds, all the records lie in it and
-- no more than the caller's table takes, and gt2_crs_find over them returns the first record with the
-- hash, or -1 where no record has it.
pub crs_find-FirstRecord :
    (d : Bytes) (len limit : ℕ) (recs : List CrsRec)
    → len < 2 ^ 32
    → crsinfo_parse d len limit ≡ ok recs
    → (8 + le16 d 6 * 0x18 ≤ len)
      × (le16 d 6 ≤ limit)
      × ((hash : ℕ) → FirstRecord d 0 (le16 d 6) hash (crs_find recs hash))
unfolding crs_find
crs_find-FirstRecord d len limit recs small h =
    let (head, fits, room, same) = crsinfo_parse-parts d len limit recs h in
    (
      omega arith,
      room,
      λ hash.
          let z : 0 + le16 d 6 ≡ le16 d 6 = omega arith in
          rw (← same) (rw z at (crs_find_from-FirstRecord (le16 d 6) d 0 hash (omega arith))),
    )
