-- ===== src/Menu.antt =====
-- The menu records: decomp/src/menu/menu.c. Signed values are kept as the words that hold them.
pub mod Tick
pub mod Arena
pub mod Twelfth
pub mod Counter
use gt2_recomp.Prelude.{
  ℕ, zero, suc, ◌+◌, ◌-◌, ◌*◌, ◌/◌, ◌%◌, ◌^◌, Bool, true, false, ◌&&◌, ◌||◌, not, Option, none,
  some, ltb, ◌==◌, if◌then◌else◌, bit_or, bit_and,
}
use gt2_recomp.Bytes.{Bytes, le16, put_u32, u8, u16, u32, sub32, neg16, neg32, sext16, slt32}

-- gt2_menu_rec_t without its holes, which no function reads or writes
pub record MenuRec : Type 0 where
  pub b0 : ℕ
  pub b1 : ℕ
  pub h2 : ℕ
  pub h4 : ℕ
  pub h6 : ℕ
  pub b8 : ℕ
  pub list : ℕ
  pub cnt : ℕ
  pub x12 : ℕ

-- gt2_menu_list_t
pub record MenuList : Type 0 where
  pub addr : ℕ
  pub w0 : ℕ
  pub w4 : ℕ
  pub h4 : ℕ
  pub h6 : ℕ
  pub h8 : ℕ

-- gt2_menu_cell_t
pub record Cell : Type 0 where
  pub h10 : ℕ
  pub h12 : ℕ
  pub h14 : ℕ
  pub h16 : ℕ
  pub w18 : ℕ
  pub w1c : ℕ

-- gt2_menu_record_init, the template read as bytes
unfoldable pub record_init : MenuRec → Bytes → MenuRec
record_init dst tpl = record dst {
  b0 = tpl 0;
  h2 = le16 tpl 2;
  b8 = tpl 1;
  cnt = 0xFFFF;
  x12 = 0x80;
}

-- the counter after gt2_menu_counter_bump
unfoldable pub bumped : ℕ → ℕ
bumped c =
    if neg16 c
    then (if c == 0xFFFF then c else c + 1)
    else if neg16 (u16 (c + 1)) || ltb (u16 (c + 1)) 12
    then u16 (c + 1)
    else 12

-- gt2_menu_counter_bump
unfoldable pub counter_bump : MenuRec → MenuRec
unfolding bumped
counter_bump rec = record rec { cnt = bumped rec.cnt }

unfoldable pub mullo : ℕ → ℕ → ℕ
mullo a b = u32 (a * b)

-- (s64)a
abbrev pub sext32 : ℕ → ℕ
sext32 a = if neg32 a then a + (2 ^ 64 - 2 ^ 32) else a

unfoldable pub mulhi : ℕ → ℕ → ℕ
mulhi a b = sext32 a * sext32 b % 2 ^ 64 / 2 ^ 32

-- v >> k of a signed word
abbrev pub sra : ℕ → ℕ → ℕ
sra k v = if neg32 v then v / 2 ^ k + (2 ^ 32 - 2 ^ (32 - k)) else v / 2 ^ k

abbrev pub magic_div3 : ℕ
magic_div3 = 0x2AAAAAAB

unfoldable pub div3 : ℕ → ℕ
unfolding mulhi
div3 x = sub32 (sra 1 (mulhi x magic_div3)) (sra 31 x)

unfoldable pub shr1 : ℕ → ℕ
shr1 w = sra 1 (sext16 w)

unfoldable pub compose : ℕ → ℕ → ℕ
compose v top = bit_or (bit_or (bit_or (u8 v) (u8 v * 2 ^ 8)) (u8 v * 2 ^ 16)) top

-- The memory that the packets lie in and what `ctx` leads to.
pub record Screen (W : Type 0) : Type 0 where
  pub memory : Bytes
  pub world : W

-- The injected emitters over the caller's frame: the packets' addresses that emit_a and emit_b return
-- and what the calls change.
pub record Emitters (W : Type 0) : Type 0 where
  pub emit_a : ℕ → Screen W → ℕ × Screen W
  pub emit_b : ℕ → Screen W → ℕ × Screen W
  pub emit_s : Cell → Screen W → Screen W

-- calls in sequence
abbrev pub Emits : Type 0 → Type 0 → Type 0
Emits W A = Screen W → A × Screen W

infixl 5 ◌>>=◌
unfoldable pub ◌>>=◌ : {W A B : Type 0} → Emits W A → (A → Emits W B) → Emits W B
(m >>= k) s = k (m s).0 (m s).1

infixl 5 ◌>>◌
unfoldable pub ◌>>◌ : {W A B : Type 0} → Emits W A → Emits W B → Emits W B
unfolding ◌>>=◌
m >> k = m >>= λ done. k

unfoldable pub done : {W A : Type 0} → A → Emits W A
done a s = (a, s)

unfoldable pub short : {W : Type 0} → Emitters W → Cell → Emits W (Unit {0})
short e cell s = (tt, e.emit_s cell s)

-- the word 0 of a packet fill
unfoldable pub fill_word : ℕ → ℕ → MenuList → ℕ
unfolding shr1
fill_word base s6 list = u32 (sub32 base (shr1 list.h4) + u32 (sub32 s6 (shr1 list.h6) * 2 ^ 16))

unfoldable pub fill_pkt : {W : Type 0} → ℕ → ℕ → ℕ → MenuList → Emits W (Unit {0})
unfolding fill_word
fill_pkt p base s6 list s = (
  tt,
  record s {
    memory =
        put_u32 (put_u32 (put_u32 s.memory p (fill_word base s6 list)) (p + 4) list.w0) (p + 8)
          list.w4;
  },
)

-- emit_a, and the caller's fill of the packet that it returns
unfoldable pub filled : {W : Type 0} → Emitters W → MenuList → ℕ → ℕ → ℕ → Emits W ℕ
unfolding ◌>>=◌ ◌>>◌ done fill_pkt
filled e list flags base s6 = do p ← e.emit_a flags; fill_pkt p base s6 list; done p

-- the base of the ease, by bits 5 and 6 of the flag byte
unfoldable pub ease_base : MenuRec → MenuList → ℕ
unfolding shr1
ease_base rec list =
    if bit_and rec.b0 0x60 == 0x20
    then u32 (sext16 rec.h4 + shr1 list.h4)
    else if bit_and rec.b0 0x60 == 0x40
    then sub32 (sext16 rec.h4) (shr1 list.h4)
    else sext16 rec.h4

-- the brightness of the short path
unfoldable pub short_level : MenuRec → ℕ → ℕ
unfolding mullo div3
short_level rec k =
    let s2 = u32 (u32 (rec.b8 + div3 (mullo (sub32 0 rec.b8) k)) * 2) in
    if slt32 s2 0xC1 then s2 else 0xC0

-- the first cell of the short path, `k` the counter and 13
unfoldable pub short_cell : MenuRec → MenuList → ℕ → Cell
unfolding mullo div3 shr1 ease_base short_level
short_cell rec list k =
    let s5 = div3 (mullo (sext16 list.h4) k) in
    let s2 = shr1 list.h6 in
    let na2 = sub32 s2 (div3 (mullo s2 k)) in
    let s1 = div3 (mullo (sext16 rec.h2) k) in
    let t2 = shr1 list.h4 in
    let s0 = sub32 (ease_base rec list) t2 in
    record {
      h10 = u16 (s0 + s5);
      h12 = u16 (sub32 (sext16 rec.h6) na2);
      h14 = u16 (sub32 (u32 (t2 * 2) + s1) s5);
      h16 = u16 (na2 * 2);
      w18 = 0;
      w1c = short_level rec k;
    }

-- the second cell, a step to the left with the two levels exchanged
unfoldable pub second_cell : MenuRec → MenuList → ℕ → Cell
unfolding short_cell
second_cell rec list k = record (short_cell rec list k) {
  h10 = u16 (sub32 (sub32 (ease_base rec list) (shr1 list.h4)) (div3 (mullo (sext16 rec.h2) k)));
  w18 = short_level rec k;
  w1c = 0;
}

-- the short pair, below -1
unfoldable pub short_path : {W : Type 0} → MenuRec → MenuList → Emitters W → Emits W (Option ℕ)
unfolding ◌>>=◌ ◌>>◌ done short second_cell
short_path rec list e =
    let k = u32 (sext16 rec.cnt + 13) in
    (do
      short e (short_cell rec list k)
      short e (second_cell rec list k)
      p ← e.emit_b 0x20
      done (some p))
