-- ===== src/Tim/Walks.antt =====
-- The walks over a chain end, and gt2_tim_info finds exactly the images that gt2_tim_count counts.
use gt2_recomp.Prelude.{
  ℕ, zero, suc, ◌+◌, ◌-◌, ◌^◌, ◌<◌, ◌≤◌, ◌≡◌, refl, ◌∙◌, false, some, ok, err, arith, leb, ◌==◌,
  Bool-cases, Outcome-cases, inl, inr,
}
use gt2_recomp.Bytes.{Bytes, u32}
use gt2_recomp.Tim.{
  TimStatus, not_found, TimInfo, tim_extent, count_from, count, info_from, info_at,
}
use gt2_recomp.Tim.Extent.{tim_extent-InSlice}

-- `n` images start one after the other at `off`, and none follows
pub data Chained (d : Bytes) (len : ℕ) : ℕ → ℕ → Type 0 where
  stop : {off : ℕ} {e : TimStatus} → tim_extent d len off false ≡ err e → Chained d len off 0
  image :
      {off n : ℕ} (info : TimInfo)
      → tim_extent d len off false ≡ ok info
      → Chained d len (u32 (off + info.total_len)) n
      → Chained d len off (suc n)

-- a round: what the counting loop does at an image
count_from-image :
    (f : ℕ) (d : Bytes) (len off n : ℕ) (info : TimInfo)
    → leb len off ≡ false
    → tim_extent d len off false ≡ ok info
    → (info.total_len == 0) ≡ false
    → count_from f d len (u32 (off + info.total_len)) ≡ some n
    → count_from (suc f) d len off ≡ some (suc n)
unfolding count_from
count_from-image f d len off n info a b c e = rw (a, b, c, e) refl

count_from-stop :
    (f : ℕ) (d : Bytes) (len off : ℕ) (e : TimStatus)
    → tim_extent d len off false ≡ err e
    → count_from (suc f) d len off ≡ some 0
unfolding count_from
count_from-stop f d len off e h = elim (Bool-cases (leb len off)) [
  | inl past ↦ rw past refl
  | inr here ↦ rw (here, h) refl
]

count_from-Chained :
    (f : ℕ) (d : Bytes) (len off : ℕ)
    → len < 2 ^ 31
    → off ≤ len
    → len - off < f
    → (n : ℕ) × (count_from f d len off ≡ some n) × Chained d len off n
count_from-Chained zero d len off small h fuel = elim fuel [ ]
count_from-Chained (suc f) d len off small h fuel =
    elim (Outcome-cases (tim_extent d len off false)) [
      | inr (e, x) ↦ (0, count_from-stop f d len off e x, stop x)
      | inl (info, x) ↦
          let s = tim_extent-InSlice d len off false info small h x in
          let last = s.strict refl in
          let ends = s.ends in
          let pix = s.pixels in
          let (n, r, c) =
            count_from-Chained f d len (u32 (off + info.total_len)) small (omega arith)
              (omega arith) in
          (
            suc n,
            count_from-image f d len off n info (ground arith) x (ground arith) r,
            image info x c,
          )
    ]

info_from-in :
    (d : Bytes) (len off n k : ℕ)
    → Chained d len off n
    → k < n
    → (info : TimInfo) × (info_from d len off k ≡ ok info)
unfolding info_from
info_from-in d len off zero k c h = elim h [ ]
info_from-in d len off (suc n) zero (image info x c) h = (info, rw (x, info_from) refl)
info_from-in d len off (suc n) (suc k) (image info x c) h =
    let (found, r) = info_from-in d len (u32 (off + info.total_len)) n k c (omega arith) in
    (found, rw (x, info_from) r)

info_from-past :
    (d : Bytes) (len off n k : ℕ)
    → Chained d len off n
    → n ≤ k
    → info_from d len off k ≡ err not_found
unfolding info_from
info_from-past d len off zero zero (stop x) h = rw (x, info_from) refl
info_from-past d len off zero (suc k) (stop x) h = rw (x, info_from) refl
info_from-past d len off (suc n) zero (image info x c) h = absurd (omega arith)
info_from-past d len off (suc n) (suc k) (image info x c) h =
    rw (x, info_from) (info_from-past d len (u32 (off + info.total_len)) n k c (omega arith))

-- what is found was parsed at some offset of the slice
pub info_from-parsed :
    (d : Bytes) (len off k : ℕ) (info : TimInfo)
    → len < 2 ^ 31
    → off ≤ len
    → info_from d len off k ≡ ok info
    → (at : ℕ) × (at ≤ len) × (tim_extent d len at false ≡ ok info)
unfolding info_from
info_from-parsed d len off zero info small h e = elim (Outcome-cases (tim_extent d len off false)) [
  | inl (found, x) ↦ (off, h, x ∙ (rw (x, info_from) at e))
  | inr (bad, x) ↦ cc (rw (x, info_from) at e)
]
info_from-parsed d len off (suc k) info small h e =
    elim (Outcome-cases (tim_extent d len off false)) [
      | inr (bad, x) ↦ cc (rw (x, info_from) at e)
      | inl (found, x) ↦
          let s = tim_extent-InSlice d len off false found small h x in
          let last = s.strict refl in
          info_from-parsed d len (u32 (off + found.total_len)) k info small (omega arith)
            (rw (x, info_from) at e)
    ]

-- Over a slice below 2 ^ 31 bytes, gt2_tim_count ends with a number, gt2_tim_info describes an image for
-- each index below that number, and returns GT2_TIM_ERR_NOT_FOUND for every other index.
pub info_at-count :
    (d : Bytes) (len : ℕ)
    → len < 2 ^ 31
    → (n : ℕ) × (count d len ≡ some n)
      × ((k : ℕ) → k < n → (info : TimInfo) × (info_at d len k ≡ ok info))
      × ((k : ℕ) → n ≤ k → info_at d len k ≡ err not_found)
unfolding count info_at
info_at-count d len small =
    let (n, r, c) = count_from-Chained (len + 1) d len 0 small (omega arith) (omega arith) in
    (n, r, λ k h. info_from-in d len 0 n k c h, λ k h. info_from-past d len 0 n k c h)
