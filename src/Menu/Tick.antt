-- ===== src/Menu/Tick.antt =====
-- gt2_menu_emit_tick: the full path of a record whose counter is not negative, and the choice of path.
use gt2_recomp.Prelude.{
  ℕ, ◌+◌, ◌-◌, ◌*◌, Bool, ◌&&◌, not, Option, none, some, ltb, ◌==◌, if◌then◌else◌, bit_or, bit_and,
}
use gt2_recomp.Bytes.{u32, sub32, neg16, sext16}
use gt2_recomp.Menu.{
  MenuRec, MenuList, Emitters, Emits, ◌>>=◌, ◌>>◌, done, mullo, div3, sra, compose, ease_base,
  filled, short_path,
}

-- the ease of the full path: the level, the offset to both sides and the level of the first pair
pub record Blend : Type 0 where
  pub level : ℕ
  pub side : ℕ
  pub rest : ℕ

-- skipped from 12 on
unfoldable pub blend : MenuRec → Blend
blend rec =
    if ltb rec.cnt 12
    then record {
      level = div3 (mullo rec.b8 rec.cnt);
      side = div3 (mullo (sext16 rec.h2) (12 - rec.cnt));
      rest = sub32 rec.b8 (div3 (mullo rec.b8 rec.cnt));
    }
    else record { level = rec.b8; side = 1; rest = 0 }

-- the scaled level, before its shift
unfoldable pub scaled : MenuRec → ℕ
scaled rec = mullo (blend rec).level (sext16 rec.x12)

-- list->h8 | s7
unfoldable pub tail_flags : MenuRec → MenuList → ℕ
tail_flags rec list = bit_or list.h8 (bit_and rec.b0 0x18 * 4)

abbrev pub top_bit : ℕ
top_bit = 0x02000000

abbrev pub bit_set : ℕ → ℕ → Bool
bit_set mask b0 = not (bit_and b0 mask == 0)

-- the first pair
unfoldable pub first_pair : {W : Type 0} → MenuRec → MenuList → Emitters W → Emits W (Unit {0})
first_pair rec list e =
    if ltb rec.cnt 12 && bit_set 4 rec.b0
    then (do
      filled e list (compose (blend rec).rest top_bit) (sub32 (ease_base rec list) (blend rec).side)
          (sext16 rec.h6)
      filled e list (compose (blend rec).rest top_bit) (u32 (ease_base rec list + (blend rec).side))
          (sext16 rec.h6)
      e.emit_b (tail_flags rec list)
      done tt)
    else done tt

-- the gate's own packet, and the level that the next packet is composed of
unfoldable pub gated : {W : Type 0} → MenuRec → MenuList → Emitters W → ℕ → Emits W ℕ
gated rec list e gate = if gate == 0 then done (sra 8 (scaled rec)) else (do
  filled e list top_bit (ease_base rec list) (sext16 rec.h6)
  e.emit_b list.h8
  done (sra 7 (scaled rec)))

-- what bit 0 adds to the full stanza
unfoldable pub second_stanza :
    {W : Type 0} → MenuRec → MenuList → Emitters W → ℕ → Emits W (Unit {0})
second_stanza rec list e gate =
    if bit_set 1 rec.b0
    then (do
      level ← gated rec list e gate
      filled e list (compose level top_bit) (ease_base rec list) (sext16 rec.h6)
      e.emit_b (bit_or list.h8 0x40)
      done tt)
    else done tt

-- the shortcut stanza, or the full one
unfoldable pub stanza : {W : Type 0} → MenuRec → MenuList → Emitters W → ℕ → Emits W (Unit {0})
stanza rec list e gate =
    if bit_set 2 rec.b0
    then (do
      filled e list (compose (sra 7 (scaled rec)) top_bit) (ease_base rec list) (sext16 rec.h6)
      e.emit_b (tail_flags rec list)
      second_stanza rec list e gate)
    else (do
      filled e list (compose (sra 7 (scaled rec)) 0) (ease_base rec list) (sext16 rec.h6)
      done tt)

unfoldable pub full_path : {W : Type 0} → MenuRec → MenuList → Emitters W → ℕ → Emits W (Option ℕ)
full_path rec list e gate = do
  first_pair rec list e
  stanza rec list e gate
  p ← e.emit_b (tail_flags rec list)
  done (some p)

-- gt2_menu_emit_tick, `none` for NULL
unfoldable pub emit_tick : {W : Type 0} → MenuRec → ℕ → MenuList → Emitters W → Emits W (Option ℕ)
emit_tick rec gate list e =
    if sext16 rec.cnt == list.addr
    then done none
    else if neg16 rec.cnt
    then (if rec.cnt == 0xFFFF then done none else short_path rec list e)
    else full_path rec list e gate
