-- ===== src/Card.antt =====
-- The card status driver: decomp/src/card/card.c. Signed values are kept as the words that hold them.
pub mod Ticks
pub mod Safe
pub mod Bounds
pub mod Insert
use gt2_recomp.Prelude.{
  ℕ, zero, suc, ◌+◌, ◌-◌, ◌*◌, ◌%◌, ◌^◌, Bool, true, false, ◌&&◌, ◌||◌, not, Option, none, some,
  ltb, leb, ◌==◌, if◌then◌else◌, bit_or, bit_and,
}
use gt2_recomp.Bytes.{neg16, neg32, sext16, slt32, Bytes, le16, le32, u8, u16, u32, sub32}
use gt2_recomp.Card.Ticks.{
  CardStatus, oob, Card, Callbacks, Step, ◌>>=◌, ◌>>◌, done, guard, call, ask, rd8, rd16u, rd32,
  wr8, wr16, data_byte, put_data,
}

-- s1 & mask
abbrev pub has : ℕ → ℕ → Bool
has mask s1 = not (bit_and s1 mask == 0)

-- An index, signed, that does not lie in the window.
abbrev pub off_window : ℕ → ℕ → Bool
off_window i len = neg32 i || leb len i

-- The results -3, -2, -1 and 0 of rc_out are the numbers 3, 2, 1 and 0 here.
abbrev pub exit_neg2 : {W : Type 0} → Step W ℕ
exit_neg2 = done 2

-- bump, `lim` and `reset` small and not negative
unfoldable pub bump : {W : Type 0} → ℕ → ℕ → ℕ → Step W (Unit {0})
bump off lim reset = do
  old ← rd16u off
  wr16 off (u16 (old + 1))
  if not (neg16 (u16 (old + 1))) && leb lim (u16 (old + 1)) then wr16 off reset else done tt

-- the loop that moves data[cnt..i] up by one byte, `n` bytes to go
unfoldable pub shift_up : {W : Type 0} → ℕ → ℕ → ℕ → Step W (Unit {0})
shift_up zero len i = done tt
shift_up (suc n) len i = do
  guard (not (off_window i len)) oob
  b ← data_byte i
  put_data (i + 1) b
  shift_up n len (sub32 i 1)

-- the shift, where the insertion point is not past the end `r` that c8fc4 gave
unfoldable pub make_room : {W : Type 0} → ℕ → ℕ → ℕ → Step W (Unit {0})
unfolding shift_up
make_room len r cnt =
    if slt32 r cnt
    then done tt
    else (do guard (not (off_window (u32 (r + 1)) len)) oob; shift_up (sub32 r cnt + 1) len r)

-- the byte of the constant table at the row and the column of the state, into data[cnt]
unfoldable pub stamp_key : {W : Type 0} → ℕ → Bytes → ℕ → ℕ → Step W (Unit {0})
stamp_key len aux aux_len cnt = do
  row ← rd8 0x1A
  col ← rd8 0x1B
  guard (ltb (row * 16 + col) aux_len) oob
  guard (not (off_window cnt len)) oob
  put_data cnt (aux (row * 16 + col))

-- the 0x500 lane
unfoldable pub back_lane : {W : Type 0} → Callbacks W → Step W ℕ
back_lane cb = do
  c ← rd16u 0x1C
  if neg16 c || c == 0 then (do call (cb.op0840 0); exit_neg2) else (do
    call (cb.op0840 2)
    wr16 0x1C (u16 (c - 1))
    call (cb.op3524 (sext16 (u16 (c - 1))))
    exit_neg2)

-- the end of the 0xA00 lane, by the answer of ad3c
unfoldable pub key_stamped : {W : Type 0} → Callbacks W → ℕ → Step W ℕ
key_stamped cb q = do
  lim ← rd16u 0x20
  if slt32 q (sext16 lim)
      then (do call (cb.op0840 1); c ← rd16u 0x1C; wr16 0x1C (u16 (c + 1)); exit_neg2)
      else (do c ← rd16u 0x1C; call (cb.op3524 (sext16 c)); call (cb.op0840 0); exit_neg2)

unfoldable pub key_typed : {W : Type 0} → Callbacks W → ℕ → Bytes → ℕ → Step W ℕ
unfolding make_room stamp_key key_stamped
key_typed cb len aux aux_len = do
  r ← ask cb.c8fc4
  lim ← rd16u 0x1E
  if slt32 r (sext16 lim)
      then (do
        c ← rd16u 0x1C
        make_room len r (sext16 c)
        stamp_key len aux aux_len (sext16 c)
        q ← ask (cb.ad3c (sext16 c))
        key_stamped cb q)
      else (do call (cb.op0840 2); exit_neg2)

-- the 0xA00 lane
unfoldable pub key_lane : {W : Type 0} → Callbacks W → ℕ → Bytes → ℕ → Step W ℕ
unfolding key_typed
key_lane cb len aux aux_len = do
  row ← rd8 0x1A
  if row == 0xC
      then (do col ← rd8 0x1B; if leb 8 col then done 0 else done 1)
      else key_typed cb len aux aux_len

-- the 0x10000 arm
unfoldable pub quit_arm : {W : Type 0} → Callbacks W → Step W ℕ
quit_arm cb = do call (cb.d400 0x44); wr8 0x1A 0x0C; wr8 0x1B 8; call (cb.op0840 5); done 3

-- the countdown of +0x1C
unfoldable pub step_left : {W : Type 0} → ℕ → Step W (Unit {0})
step_left s1 =
    if has 0x10 s1
    then (do
      old ← rd16u 0x1C
      wr16 0x1C (u16 (old + 0xFFFF))
      if neg16 (u16 (old + 0xFFFF)) then wr16 0x1C 0 else done tt)
    else done tt

-- the count up of +0x1C, clamped to the end that c8fc4 gives
unfoldable pub step_right : {W : Type 0} → Callbacks W → ℕ → Step W (Unit {0})
step_right cb s1 =
    if has 0x1000 s1
    then (do
      old ← rd16u 0x1C
      r ← ask cb.c8fc4
      wr16 0x1C (u16 (old + 1))
      if slt32 r (sext16 (u16 (old + 1))) then wr16 0x1C (u16 r) else done tt)
    else done tt

-- the column, one to the left
unfoldable pub col_left : {W : Type 0} → ℕ → Step W (Unit {0})
col_left s1 =
    if has 4 s1
    then (do
      old ← rd8 0x1B
      wr8 0x1B (u8 (old + 0xFF))
      if leb 0x80 (u8 (old + 0xFF)) then wr8 0x1B 0x0F else done tt
      row ← rd8 0x1A
      if row == 0xC then wr8 0x1B 7 else done tt)
    else done tt

-- the column, one to the right
unfoldable pub col_right : {W : Type 0} → ℕ → Step W (Unit {0})
col_right s1 =
    if has 8 s1
    then (do
      old ← rd8 0x1B
      wr8 0x1B (u8 (old + 1))
      if leb 16 (u8 (old + 1)) && not (leb 0x80 (u8 (old + 1))) then wr8 0x1B 0 else done tt
      row ← rd8 0x1A
      if row == 0xC then wr8 0x1B 8 else done tt)
    else done tt

-- the arms that move the cursor
unfoldable pub move_lane : {W : Type 0} → Callbacks W → ℕ → Step W ℕ
unfolding step_left step_right col_left col_right
move_lane cb s1 = do
  step_left s1
  step_right cb s1
  row ← rd16u 0x4A
  wr8 0x1A (u8 row)
  col_left s1
  col_right s1
  if has 0x101F s1 then (do call (cb.op0840 5); done 3) else exit_neg2

-- the lane that the event's bits choose
unfoldable pub lanes : {W : Type 0} → Callbacks W → ℕ → Bytes → ℕ → ℕ → Step W ℕ
unfolding back_lane key_lane quit_arm move_lane
lanes cb len aux aux_len s1 =
    if has 0x500 s1
    then back_lane cb
    else if has 0xA00 s1
    then key_lane cb len aux aux_len
    else if has 0x10000 s1
    then quit_arm cb
    else move_lane cb s1

abbrev pub by_event : {W : Type 0} → Callbacks W → ℕ → Bytes → ℕ → Option Bytes → Step W ℕ
by_event cb len aux aux_len none = exit_neg2
by_event cb len aux aux_len (some ev) = lanes cb len aux aux_len (bit_or (le32 ev 4) (le32 ev 0xC))

-- the entry counter below zero: -1 stays, the others climb
unfoldable pub climb : {W : Type 0} → ℕ → Step W ℕ
climb c = if c == 0xFFFF then exit_neg2 else (do wr16 0x14 (u16 (c + 1)); exit_neg2)

-- gt2_card_run, `ev` none for NULL
unfoldable pub run : {W : Type 0} → Callbacks W → Option Bytes → ℕ → Bytes → ℕ → Step W ℕ
unfolding bump lanes climb
run cb ev len aux aux_len = do
  call (cb.cfc4 0x44)
  call (cb.be64 0x28)
  c ← rd16u 0x14
  if neg16 c then climb c else (do
    w ← rd32 0
    call (cb.da80 w)
    bump 0x14 13 12
    bump 0x16 61 0
    bump 0x18 41 0
    by_event cb len aux aux_len ev)
