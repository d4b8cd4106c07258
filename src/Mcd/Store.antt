-- ===== src/Mcd/Store.antt =====
-- gt2_mcd_write and gt2_mcd_delete.
pub mod Used
pub mod Frame
pub mod Stored
pub mod RoundTrip
pub mod New
pub mod Reached
use gt2_recomp.Prelude.{
  ℕ, zero, suc, ◌+◌, ◌-◌, ◌*◌, ◌/◌, ◌%◌, ◌^◌, Bool, true, false, ◌&&◌, ◌||◌, not, Option, none,
  some, List, [], ◌∷◌, Outcome, ok, err, ltb, leb, ◌==◌, if◌then◌else◌, length,
}
use gt2_recomp.Bytes.{Bytes, write, copy, fill, put_u16, put_u32, str_eq}
use gt2_recomp.Mcd.{
  McdStatus, inval, not_found, nospace, exists, dir_entries, st_first, st_mid, st_last, in_use, dir,
  frame_checksum,
}

-- d.state of entry `i`, read as gt2_mcd_dir does, is in use
unfoldable pub entry_in_use : Bytes → ℕ → Bool
entry_in_use img i = elim (dir img i) [ ok d ↦ in_use d.state | err e ↦ false ]

-- used[b] = 1
abbrev pub mark : ℕ → (ℕ → Bool) → ℕ → Bool
mark b used x = x == b || used x

-- The chain loop of used_blocks from block `blk` on, at most `fuel` rounds.
unfoldable pub mark_chain : ℕ → Bytes → ℕ → (ℕ → Bool) → Option (ℕ → Bool)
mark_chain zero img blk used = none
mark_chain (suc fuel) img blk used =
    if ltb blk 1 || ltb 15 blk then some used else elim (dir img (blk - 1)) [
      | err e ↦ some (mark blk used)
      | ok d ↦
          let rest = mark_chain fuel img (d.next + 1) (mark blk used) in
          if d.next == 0xFFFF then some (mark blk used) else rest
    ]

-- the loop of used_blocks over the `n` entries from `i` on
unfoldable pub mark_entries : ℕ → ℕ → Bytes → ℕ → (ℕ → Bool) → Option (ℕ → Bool)
mark_entries fuel zero img i used = some used
mark_entries fuel (suc n) img i used =
    let rest = mark_entries fuel n img (i + 1) used in
    if entry_in_use img i
    then (elim (mark_chain fuel img (i + 1) used) [
      | none ↦ none
      | some more ↦ mark_entries fuel n img (i + 1) more
    ])
    else rest

-- used_blocks; `none` is a chain that has not ended in `fuel` rounds
unfoldable pub used_blocks : ℕ → Bytes → Option (ℕ → Bool)
used_blocks fuel img = mark_entries fuel dir_entries img 0 (λ b. b == 0)

-- the first `need` of the `n` blocks from `b` on that are not used
unfoldable pub pick_blocks : ℕ → (ℕ → Bool) → ℕ → ℕ → List ℕ
pick_blocks zero used b need = []
pick_blocks (suc n) used b zero = []
pick_blocks (suc n) used b (suc need) =
    let skipped = pick_blocks n used (b + 1) (suc need) in
    let taken = pick_blocks n used (b + 1) need in if used b then skipped else b ∷ taken

-- the first `need` of the `n` entries from `i` on that are not in use
unfoldable pub pick_frames : ℕ → Bytes → ℕ → ℕ → List ℕ
pick_frames zero img i need = []
pick_frames (suc n) img i zero = []
pick_frames (suc n) img i (suc need) =
    let skipped = pick_frames n img (i + 1) (suc need) in
    let taken = pick_frames n img (i + 1) need in if entry_in_use img i then skipped else i ∷ taken

-- one of the `n` entries from `i` on is in use and has the name
unfoldable pub name_taken : ℕ → Bytes → ℕ → List ℕ → Bool
name_taken zero img i name = false
name_taken (suc n) img i name =
    let rest = name_taken n img (i + 1) name in
    let here : Bool = elim (dir img i) [
      | ok d ↦ in_use d.state && str_eq d.name name
      | err e ↦ false
    ] in
    here || rest

-- the bytes of a C string
unfoldable pub string_byte : List ℕ → Bytes
string_byte [] j = 0
string_byte (c ∷ cs) zero = c
string_byte (c ∷ cs) (suc j) = string_byte cs j

-- the state of the k-th of `need` frames
unfoldable pub chain_state : Bool → List ℕ → ℕ
chain_state true later = st_first
chain_state false [] = st_last
chain_state false (p ∷ ps) = st_mid

-- the link to the next picked block
unfoldable pub chain_next : List ℕ → ℕ
chain_next [] = 0xFFFF
chain_next (p ∷ ps) = (p - 1) % 2 ^ 16

-- the frame at `f` for a block that the picked blocks `later` follow, without its checksum
unfoldable pub frame_body : Bytes → ℕ → Bool → List ℕ → List ℕ → ℕ → Bytes
frame_body m f first later name size =
    let blank = write (fill m f 0 128) f (chain_state first later) in
    let linked = put_u16 (put_u32 blank (f + 4) size) (f + 8) (chain_next later) in
    if first then copy linked (f + 10) (string_byte name) (length name + 1) else linked

-- one round of the storing loop: frame `f` for the `k`-th block `p` of the data
unfoldable pub store_round : Bytes → ℕ → ℕ → ℕ → List ℕ → List ℕ → Bytes → ℕ → Bytes
store_round m f k p later name data_ptr size =
    let framed =
      frame_checksum (frame_body m ((1 + f) * 128) (k == 0) later name size) ((1 + f) * 128) in
    copy framed (p * 8192) (λ j. data_ptr (k * 8192 + j)) 8192

-- the storing loop over the frames and the picked blocks
unfoldable pub store : Bytes → ℕ → List ℕ → List ℕ → List ℕ → Bytes → ℕ → Bytes
store m k [] ps name data_ptr size = m
store m k (f ∷ fs) [] name data_ptr size = m
store m k (f ∷ fs) (p ∷ ps) name data_ptr size =
    store (store_round m f k p ps name data_ptr size) (k + 1) fs ps name data_ptr size

-- name[0], strlen and the size
unfoldable pub request_ok : List ℕ → ℕ → Bool
request_ok name size =
    not (length name == 0)
    && not (ltb 20 (length name) || size == 0 || not (size % 8192 == 0) || ltb (15 * 8192) size)

-- gt2_mcd_write; `none` if a chain of the card does not end
unfoldable pub write_file : ℕ → Bytes → List ℕ → Bytes → ℕ → Option (Outcome McdStatus Bytes)
write_file fuel img name data_ptr size =
    let need = size / 8192 in
    let frames = pick_frames dir_entries img 0 need in
    if not (request_ok name size)
    then some (err inval)
    else if name_taken dir_entries img 0 name
    then some (err exists)
    else elim (used_blocks fuel img) [
      | none ↦ none
      | some used ↦
          let pick = pick_blocks 15 used 1 need in
          if ltb (length pick) need
          then some (err nospace)
          else if ltb (length frames) need
          then some (err nospace)
          else some (ok (store img 0 frames pick name data_ptr size))
    ]

abbrev pub st_del1 : ℕ
st_del1 = 0xA1

abbrev pub st_del2 : ℕ
st_del2 = 0xA2

abbrev pub st_del3 : ℕ
st_del3 = 0xA3

-- The loop of gt2_mcd_delete from block `blk` on, at most `fuel` rounds: the status, and the card.
unfoldable pub delete_chain : ℕ → Bytes → ℕ → Bool → Option (Outcome McdStatus (Unit {0}) × Bytes)
delete_chain zero img blk first = none
delete_chain (suc fuel) img blk first =
    if ltb blk 1 || ltb 15 blk then some (err inval, img) else elim (dir img (blk - 1)) [
      | err e ↦ some (err inval, img)
      | ok d ↦
          let f = blk * 128 in
          let state =
            if first then st_del1 else if not (d.next == 0xFFFF) then st_del2 else st_del3 in
          let out = frame_checksum (write img f state) f in
          let rest = delete_chain fuel out (d.next + 1) false in
          if d.next == 0xFFFF then some (ok tt, out) else rest
    ]

-- gt2_mcd_delete
unfoldable pub delete : ℕ → Bytes → ℕ → Option (Outcome McdStatus (Unit {0}) × Bytes)
delete fuel img dir_idx =
    if leb dir_entries dir_idx
    then some (err inval, img)
    else if not (entry_in_use img dir_idx)
    then some (err not_found, img)
    else delete_chain fuel img (dir_idx + 1) true
