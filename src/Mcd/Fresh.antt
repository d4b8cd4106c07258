-- ===== src/Mcd/Fresh.antt =====
-- A card that gt2_mcd_format made: its header holds, and every directory entry is free.
use gt2_recomp.Prelude.{
  ℕ, zero, suc, ◌+◌, ◌*◌, ◌-◌, ◌<◌, ◌≤◌, ◌≡◌, refl, ◌∙◌, true, false, [], ok, arith, ◌==◌, ◌||◌,
  leb, if◌then◌else◌, inl, inr,
}
use gt2_recomp.Bytes.{Bytes, times, write, fill, le16, le32, c_string}
use gt2_recomp.Bytes.Laws.{copy_outside}
use gt2_recomp.Bytes.Rounds.{times-kept, times-last}
use gt2_recomp.Task.Memory.{Outside}
use gt2_recomp.Mcd.{
  mcd_size, dir_entries, st_free, frame_at, xor_sum, frame_checksum, free_frame, broken_frame,
  header_frames, format, entry_at, dir, header_ok, file_count, count_from, in_use,
}
use gt2_recomp.Mcd.Sums.{Summed, frame_checksum-Summed, Summed-same}

checksum_ne : (m : Bytes) (f k : ℕ) → Outside k f 0x80 → frame_checksum m f k ≡ m k
unfolding frame_checksum
checksum_ne m f k h = ground arith

free_frame-kept :
    (i : ℕ) (m : Bytes) (k : ℕ) → Outside k ((1 + i) * 128) 0x80 → free_frame i m k ≡ m k
unfolding free_frame
free_frame-kept i m k h =
    let f = (1 + i) * 128 in
    checksum_ne (write (write (write m f st_free) (f + 8) 0xFF) (f + 9) 0xFF) f k h ∙ ground arith

broken_frame-kept : (i : ℕ) (m : Bytes) (k : ℕ) → k < (16 + i) * 128 → broken_frame i m k ≡ m k
unfolding broken_frame
broken_frame-kept i m k h =
    let f = (16 + i) * 128 in
    checksum_ne (write (write (fill (fill m f 0 128) f 0xFF 4) (f + 8) 0xFF) (f + 9) 0xFF) f k
      (inl h)
    ∙ ground arith

header_frames-zero : (m : Bytes) (k : ℕ) → 0x80 ≤ k → k < 63 * 128 → header_frames m k ≡ 0
unfolding header_frames
header_frames-zero m k lo hi =
    let h = frame_checksum (write (write (fill m 0 0 mcd_size) 0 b'M') 1 b'C') 0 in
    copy_outside h h (63 * 128) 128 k (inl hi)
    ∙ checksum_ne (write (write (fill m 0 0 mcd_size) 0 b'M') 1 b'C') 0 k (inr (omega arith))
    ∙ ground arith

-- byte `c` of a free directory frame, but for its checksum
abbrev free_byte : ℕ → ℕ
free_byte c = if c == 0 then st_free else if c == 8 || c == 9 then 0xFF else 0

-- what the frame of entry `i` is when its round is done
abbrev before : Bytes → ℕ → Bytes
before m i = times i free_frame (header_frames m)

before-zero : (m : Bytes) (i c : ℕ) → i < 15 → c < 0x80 → before m i ((1 + i) * 128 + c) ≡ 0
before-zero m i c h lt =
    times-kept i free_frame (header_frames m) ((1 + i) * 128 + c)
      (λ j b less. free_frame-kept j b ((1 + i) * 128 + c) (inr (omega arith)))
    ∙ header_frames-zero m ((1 + i) * 128 + c) (omega arith) (omega arith)

free_frame-byte :
    (m : Bytes) (i c : ℕ)
    → m ((1 + i) * 128 + c) ≡ 0
    → c < 0x7F
    → free_frame i m ((1 + i) * 128 + c) ≡ free_byte c
unfolding free_frame frame_checksum
free_frame-byte m i c z lt = ground arith

format-frame :
    (m : Bytes) (i c : ℕ)
    → i < 15
    → c < 0x80
    → format m ((1 + i) * 128 + c) ≡ free_frame i (before m i) ((1 + i) * 128 + c)
unfolding format
format-frame m i c h lt =
    let k = (1 + i) * 128 + c in
    let directory = times dir_entries free_frame (header_frames m) in
    let outside : fill (times 20 broken_frame directory) 8192 0xFF (mcd_size - 8192) k
        ≡ times 20 broken_frame directory k =
      ground arith in
    outside
    ∙ times-kept 20 broken_frame directory k (λ j b less. broken_frame-kept j b k (omega arith))
    ∙ times-last 15 i free_frame (header_frames m) k h
        (λ j b lo hi. free_frame-kept j b k (inl (omega arith)))

format-byte : (m : Bytes) (i c : ℕ) → i < 15 → c < 0x7F → format m ((1 + i) * 128 + c) ≡ free_byte c
format-byte m i c h lt =
    format-frame m i c h (omega arith)
    ∙ free_frame-byte (before m i) i c (before-zero m i c h (omega arith)) lt

format-Summed : (m : Bytes) (i : ℕ) → i < 15 → Summed (format m) ((1 + i) * 128)
unfolding free_frame
format-Summed m i h =
    let f = (1 + i) * 128 in
    Summed-same (format m) (free_frame i (before m i)) f (λ c lt. format-frame m i c h lt)
      (frame_checksum-Summed
        (write (write (write (before m i) f st_free) (f + 8) 0xFF) (f + 9) 0xFF) f)

fresh_word :
    (m : Bytes) (i o : ℕ)
    → i < 15
    → o + 4 ≤ 0x7F
    → le32 (format m) ((1 + i) * 128 + o)
      ≡ free_byte o
        + free_byte (o + 1) * 256
        + free_byte (o + 2) * 65536
        + free_byte (o + 3) * 16777216
fresh_word m i o h lt =
    let f = (1 + i) * 128 in
    let a : f + o + 1 ≡ f + (o + 1) = omega arith in
    let b : f + o + 2 ≡ f + (o + 2) = omega arith in
    let c : f + o + 3 ≡ f + (o + 3) = omega arith in
    rw
      (
        a,
        b,
        c,
        format-byte m i o h (omega arith),
        format-byte m i (o + 1) h (omega arith),
        format-byte m i (o + 2) h (omega arith),
        format-byte m i (o + 3) h (omega arith),
      )
      refl

fresh_state : (m : Bytes) (i : ℕ) → i < 15 → le32 (format m) ((1 + i) * 128) ≡ st_free
fresh_state m i h =
    let z : (1 + i) * 128 + 0 ≡ (1 + i) * 128 = omega arith in
    rw z at (fresh_word m i 0 h (omega arith))

fresh_next : (m : Bytes) (i : ℕ) → i < 15 → le16 (format m) ((1 + i) * 128 + 8) ≡ 0xFFFF
fresh_next m i h =
    let f = (1 + i) * 128 in
    let a : f + 8 + 1 ≡ f + 9 = omega arith in
    let p = format-byte m i 8 h (omega arith) in
    let q = format-byte m i 9 h (omega arith) in rw (a, p, q) refl

c_string-empty : (n : ℕ) (m : Bytes) (o : ℕ) → m o ≡ 0 → c_string (suc n) m o ≡ []
unfolding c_string
c_string-empty n m o h = rw h refl

-- On a card that gt2_mcd_format made, each of the 15 directory entries is free, without size, name or
-- next block, and its checksum holds.
pub format-dir :
    (m : Bytes) (i : ℕ)
    → i < 15
    → dir (format m) i
      ≡ ok (record { state = st_free; size = 0; next = 0xFFFF; name = []; checksum_ok = true })
unfolding dir entry_at
format-dir m i h =
    let f = (1 + i) * 128 in
    let inside : leb dir_entries i ≡ false = ground arith in
    let same : frame_at 0 (1 + i) ≡ f = omega arith in
    let summed : (format m (f + 0x7F) == xor_sum (format m) f 0x7F) ≡ true =
      ground (arith, format-Summed m i h) in
    let nameless : c_string 21 (format m) (f + 10) ≡ [] =
      c_string-empty 20 (format m) (f + 10) (format-byte m i 10 h (omega arith)) in
    let sizeless : le32 (format m) (f + 4) ≡ 0 = fresh_word m i 4 h (omega arith) in
    rw (inside, same, fresh_state m i h, sizeless, fresh_next m i h, nameless, summed) refl

count_from-fresh : (n : ℕ) (m : Bytes) (i : ℕ) → i + n ≤ 15 → count_from n (format m) i ≡ 0
unfolding count_from in_use
count_from-fresh zero m i h = refl
count_from-fresh (suc n) m i h =
    let same : frame_at 0 (1 + i) ≡ (1 + i) * 128 = omega arith in
    rw (same, fresh_state m i (omega arith)) (count_from-fresh n m (i + 1) (omega arith))

format-header : (m : Bytes) (c : ℕ) → c < 0x80 → format m c ≡ header_frames m c
unfolding format
format-header m c h =
    let directory = times dir_entries free_frame (header_frames m) in
    let outside : fill (times 20 broken_frame directory) 8192 0xFF (mcd_size - 8192) c
        ≡ times 20 broken_frame directory c =
      ground arith in
    outside
    ∙ times-kept 20 broken_frame directory c (λ j b less. broken_frame-kept j b c (omega arith))
    ∙ times-kept 15 free_frame (header_frames m) c
        (λ j b less. free_frame-kept j b c (inl (omega arith)))

abbrev header_body : Bytes → Bytes
header_body m = write (write (fill m 0 0 mcd_size) 0 b'M') 1 b'C'

header_frames-front :
    (m : Bytes) (c : ℕ) → c < 0x80 → header_frames m c ≡ frame_checksum (header_body m) 0 c
unfolding header_frames
header_frames-front m c h =
    let first = frame_checksum (header_body m) 0 in
    copy_outside first first (63 * 128) 128 c (inl (omega arith))

header_mark : (m : Bytes) (c : ℕ) → c < 2 → frame_checksum (header_body m) 0 c ≡ header_body m c
unfolding frame_checksum
header_mark m c h = ground arith

header-Summed : (m : Bytes) → Summed (format m) 0
header-Summed m =
    Summed-same (format m) (frame_checksum (header_body m) 0) 0
      (λ c lt.
        let z : 0 + c ≡ c = omega arith in rw z (format-header m c lt ∙ header_frames-front m c lt))
      (frame_checksum-Summed (header_body m) 0)

-- A formatted card has a valid header and no files.
pub format-empty : (m : Bytes) → (header_ok (format m) ≡ true) × (file_count (format m) ≡ 0)
unfolding header_ok file_count
format-empty m =
    let first =
      format-header m 0 (omega arith)
      ∙ header_frames-front m 0 (omega arith)
      ∙ header_mark m 0 (omega arith) in
    let second =
      format-header m 1 (omega arith)
      ∙ header_frames-front m 1 (omega arith)
      ∙ header_mark m 1 (omega arith) in
    let summed : (format m 0x7F == xor_sum (format m) 0 0x7F) ≡ true =
      ground (arith, header-Summed m) in
    (rw (first, second, summed) refl, count_from-fresh 15 m 0 (omega arith))
