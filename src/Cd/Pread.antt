-- ===== src/Cd/Pread.antt =====
-- gt2_cd_pread reads exactly the asked bytes of the cooked image, whatever the flavour of the dump.
use gt2_recomp.Prelude.{
  ℕ, zero, suc, ◌+◌, ◌-◌, ◌/◌, ◌%◌, ◌^◌, ◌<◌, ◌≤◌, ◌≡◌, refl, true, false, ok, err, arith,
  Bool-cases, inl, inr, ◌==◌, ltb, tests, ◌∙◌, sym, ap, ok-injective,
}
use gt2_recomp.Bytes.{Bytes, copy, u32, zeros}
use gt2_recomp.Bytes.Laws.{copy_inside}
use gt2_recomp.Cd.{
  Cd, io, sector_size, file_off, sector_ok, read_sector, round_take, pread_loop, pread,
}

-- The byte at an offset of cooked space.
unfoldable pub cooked : Cd → ℕ → ℕ
cooked cd x = cd.file.at (file_off cd (x / sector_size) + x % sector_size)

-- `buf` is `old` with cooked bytes from `off` on at `[pos, pos + len)`.
pub record Filled (cd : Cd) (off len : ℕ) (old : Bytes) (pos : ℕ) (buf : Bytes) : Type 0 where
  pub before : (k : ℕ) → k < pos → buf k ≡ old k
  pub inside : (k : ℕ) → k < len → buf (pos + k) ≡ cooked cd (off + k)
  pub after : (k : ℕ) → pos + len ≤ k → buf k ≡ old k

round_bounds :
    (off len : ℕ)
    → 0 < len
    → (0 < round_take off len)
      × (round_take off len ≤ len)
      × (off % sector_size + round_take off len ≤ sector_size)
unfolding round_take
round_bounds off len h = ground arith

-- the bytes of one round
abbrev round_bytes : Cd → ℕ → Bytes
round_bytes cd off i = cd.file.at (file_off cd (off / sector_size) + (off % sector_size + i))

abbrev taken : Cd → ℕ → ℕ → Bytes → ℕ → Bytes
taken cd off len buf pos = copy buf pos (round_bytes cd off) (round_take off len)

pread_loop-done :
    (f : ℕ) (cd : Cd) (off : ℕ) (buf : Bytes) (pos : ℕ) → pread_loop f cd off 0 buf pos ≡ ok buf
unfolding pread_loop
pread_loop-done zero cd off buf pos = refl
pread_loop-done (suc f) cd off buf pos = refl

pread_loop-round :
    (f : ℕ) (cd : Cd) (off len : ℕ) (buf : Bytes) (pos : ℕ)
    → 0 < len
    → sector_ok cd (off / sector_size) ≡ true
    → pread_loop (suc f) cd off len buf pos
      ≡ pread_loop f cd
          (u32 (off + round_take off len))
          (len - round_take off len)
          (taken cd off len buf pos)
          (pos + round_take off len)
unfolding pread_loop read_sector
pread_loop-round f cd off len buf pos h s =
    let e : (len == 0) ≡ false = ground arith in rw (e, s) refl

pread_loop-fails :
    (f : ℕ) (cd : Cd) (off len : ℕ) (buf : Bytes) (pos : ℕ)
    → 0 < len
    → sector_ok cd (off / sector_size) ≡ false
    → pread_loop (suc f) cd off len buf pos ≡ err io
unfolding pread_loop read_sector
pread_loop-fails f cd off len buf pos h s =
    let e : (len == 0) ≡ false = ground arith in rw (e, s) refl

cooked_round :
    (cd : Cd) (off k : ℕ)
    → off % sector_size + k < sector_size
    → round_bytes cd off k ≡ cooked cd (off + k)
unfolding cooked
cooked_round cd off k h =
    let e : (off + k) / sector_size ≡ off / sector_size = omega arith in
    let m : (off + k) % sector_size ≡ off % sector_size + k = omega arith in cc (e, m)

module _ (cd : Cd) (off len pos : ℕ) (buf out : Bytes) (h : 0 < len) (w : off + len ≤ 2 ^ 32)
    (r : Filled cd
      (u32 (off + round_take off len))
      (len - round_take off len)
      (taken cd off len buf pos)
      (pos + round_take off len)
      out) where
  inside_now : (k : ℕ) → k < round_take off len → out (pos + k) ≡ cooked cd (off + k)
  inside_now k p =
      r.before (pos + k) (omega arith)
      ∙ copy_inside buf (round_bytes cd off) pos (round_take off len) k p
      ∙ cooked_round cd off k (omega (arith, round_bounds off len h))

  inside_later : (k : ℕ) → round_take off len ≤ k → k < len → out (pos + k) ≡ cooked cd (off + k)
  inside_later k p q =
      let a : pos + round_take off len + (k - round_take off len) ≡ pos + k = omega arith in
      let b : u32 (off + round_take off len) + (k - round_take off len) ≡ off + k = omega arith in
      cc (a, b, r.inside (k - round_take off len) (omega arith))

Filled-round :
    {cd : Cd} {off len pos : ℕ} {buf out : Bytes}
    → 0 < len
    → off + len ≤ 2 ^ 32
    → Filled cd
        (u32 (off + round_take off len))
        (len - round_take off len)
        (taken cd off len buf pos)
        (pos + round_take off len)
        out
    → Filled cd off len buf pos out
Filled-round {cd} {off} {len} {pos} {buf} {out} h w r = record {
  before = λ k p. ground (arith, r.before k);
  inside = λ k p. elim (Bool-cases (ltb k (round_take off len))) [
    | inl now ↦ inside_now cd off len pos buf out h w r k (omega tests)
    | inr later ↦ inside_later cd off len pos buf out h w r k (omega tests) p
  ];
  after = λ k p. ground (arith, r.after k, round_bounds off len h);
}

-- The sectors that the range touches can be read.
abbrev pub Readable : Cd → ℕ → ℕ → Type 0
Readable cd off len = (x : ℕ) → off ≤ x → x < off + len → sector_ok cd (x / sector_size) ≡ true

pread_loop-Filled :
    (f : ℕ) (cd : Cd) (off len : ℕ) (buf : Bytes) (pos : ℕ)
    → len ≤ f
    → off + len ≤ 2 ^ 32
    → ((x : ℕ) → off ≤ x → x < off + len → sector_ok cd (x / sector_size) ≡ true)
    → (out : Bytes) × (pread_loop f cd off len buf pos ≡ ok out) × Filled cd off len buf pos out
pread_loop-Filled f cd off zero buf pos hf w r = (
  buf,
  pread_loop-done f cd off buf pos,
  record { before = λ k p. refl; inside = λ k p. elim p [ ]; after = λ k p. refl },
)
pread_loop-Filled zero cd off (suc n) buf pos hf w r = elim hf [ ]
pread_loop-Filled (suc f) cd off (suc n) buf pos hf w r =
    let b = round_bounds off (suc n) (omega arith) in
    let t = round_take off (suc n) in
    let (out, e, filled) =
      pread_loop-Filled f cd (u32 (off + t)) (suc n - t) (taken cd off (suc n) buf pos) (pos + t)
        (omega (arith, b)) (omega (arith, b))
        (λ x p q. r x (omega (arith, b)) (omega (arith, b))) in
    (
      out,
      pread_loop-round f cd off (suc n) buf pos (omega arith) (r off (omega arith) (omega arith))
          ∙ e,
      Filled-round (omega arith) w filled,
    )

-- Where the range ends at 2 ^ 32 at most and every sector of it can be read, gt2_cd_pread succeeds, writes
-- the bytes of the cooked image at `[off, off + len)`, in order, to the front of the buffer, and leaves
-- the rest of it.
pub pread-Filled :
    (cd : Cd) (off len : ℕ) (buf : Bytes)
    → off + len ≤ 2 ^ 32
    → Readable cd off len
    → (out : Bytes) × (pread cd off buf len ≡ ok out) × Filled cd off len buf 0 out
unfolding pread
pread-Filled cd off len buf w r = pread_loop-Filled len cd off len buf 0 (omega arith) w r

pread_loop_sound :
    (f : ℕ) (cd : Cd) (off len : ℕ) (buf : Bytes) (pos : ℕ) (out : Bytes)
    → len ≤ f
    → off + len ≤ 2 ^ 32
    → pread_loop f cd off len buf pos ≡ ok out
    → Filled cd off len buf pos out
pread_loop_sound f cd off zero buf pos out hf w e =
    let same : buf ≡ out = ok-injective (sym (pread_loop-done f cd off buf pos) ∙ e) in
    record {
      before = λ k p. ap (λ (m : Bytes). m k) (sym same);
      inside = λ k p. elim p [ ];
      after = λ k p. ap (λ (m : Bytes). m k) (sym same);
    }
pread_loop_sound zero cd off (suc n) buf pos out hf w e = elim hf [ ]
pread_loop_sound (suc f) cd off (suc n) buf pos out hf w e =
    let b = round_bounds off (suc n) (omega arith) in
    let t = round_take off (suc n) in
    elim (Bool-cases (sector_ok cd (off / sector_size))) [
      | inl s ↦ Filled-round (omega arith) w (
          pread_loop_sound f cd (u32 (off + t)) (suc n - t) (taken cd off (suc n) buf pos) (pos + t)
            out (omega (arith, b)) (omega (arith, b))
            (sym (pread_loop-round f cd off (suc n) buf pos (omega arith) s) ∙ e))
      | inr s ↦ cc (e, pread_loop-fails f cd off (suc n) buf pos (omega arith) s)
    ]

-- what gt2_cd_pread returns as read, over a range that does not wrap, is what the cooked image holds
pub pread_sound :
    (cd : Cd) (off len : ℕ) (buf out : Bytes)
    → off + len ≤ 2 ^ 32
    → pread cd off buf len ≡ ok out
    → Filled cd off len buf 0 out
unfolding pread
pread_sound cd off len buf out w e = pread_loop_sound len cd off len buf 0 out (omega arith) w e

pread_loop-err :
    (f : ℕ) (cd : Cd) (off len : ℕ) (buf : Bytes) (pos x : ℕ)
    → len ≤ f
    → off + len ≤ 2 ^ 32
    → off ≤ x
    → x < off + len
    → sector_ok cd (x / sector_size) ≡ false
    → pread_loop f cd off len buf pos ≡ err io
pread_loop-err f cd off zero buf pos x hf w p q bad = absurd (omega arith)
pread_loop-err zero cd off (suc n) buf pos x hf w p q bad = elim hf [ ]
pread_loop-err (suc f) cd off (suc n) buf pos x hf w p q bad =
    let b = round_bounds off (suc n) (omega arith) in
    let t = round_take off (suc n) in
    elim (Bool-cases (sector_ok cd (off / sector_size))) [
      | inr s ↦ pread_loop-fails f cd off (suc n) buf pos (omega arith) s
      | inl s ↦ elim (Bool-cases (ltb x (off + t))) [
        | inl now ↦
            let same : x / sector_size ≡ off / sector_size = omega (tests, b) in cc (same, bad, s)
        | inr later ↦
            pread_loop-round f cd off (suc n) buf pos (omega arith) s
            ∙ pread_loop-err f cd (u32 (off + t)) (suc n - t) (taken cd off (suc n) buf pos)
                (pos + t) x (omega (arith, b)) (omega (arith, b)) (omega (tests, b))
                (omega (tests, b)) bad
      ]
    ]

-- One sector that cannot be read, of a range that ends at 2 ^ 32 at most, makes gt2_cd_pread return
-- GT2_CD_ERR_IO.
pub pread-err :
    (cd : Cd) (off len x : ℕ) (buf : Bytes)
    → off + len ≤ 2 ^ 32
    → off ≤ x
    → x < off + len
    → sector_ok cd (x / sector_size) ≡ false
    → pread cd off buf len ≡ err io
unfolding pread
pread-err cd off len x buf w p q bad = pread_loop-err len cd off len buf 0 x (omega arith) w p q bad

-- A range that starts below 4 GiB is read into an empty buffer whole.
pub stored :
    (cd : Cd) (x len : ℕ)
    → x + len < 2 ^ 32
    → Readable cd x len
    → (buf : Bytes) × (pread cd (u32 x) zeros len ≡ ok buf)
      × ((k : ℕ) → k < len → buf k ≡ cooked cd (x + k))
stored cd x len w r =
    let place : u32 x ≡ x = omega arith in
    let here : Readable cd (u32 x) len = λ y p q. r y (omega arith) (omega arith) in
    let (buf, p, f) = pread-Filled cd (u32 x) len zeros (omega arith) here in
    (buf, p, λ k l. (let z : 0 + k ≡ k = omega arith in rw (place, z) at (f.inside k l)))
