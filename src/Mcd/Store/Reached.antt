-- ===== src/Mcd/Store/Reached.antt =====
-- The cards that formatting and writing reach.
use gt2_recomp.Prelude.{
  ℕ, zero, suc, ◌+◌, ◌*◌, ◌/◌, ◌<◌, ◌≤◌, ◌≡◌, Bool, true, some, List, ok, arith, Bool-cases, inl,
  inr, length, map,
}
use gt2_recomp.Bytes.{Bytes}
use gt2_recomp.Mcd.{dir_entries, in_use, format}
use gt2_recomp.Mcd.Fresh.{format-dir}
use gt2_recomp.Mcd.Store.{
  entry_in_use, pick_frames, pick_blocks, used_blocks, store, request_ok, write_file,
}
use gt2_recomp.Mcd.Store.Used.{IsSound, used_blocks_iff, pick_blocks-map}
use gt2_recomp.Mcd.Store.Stored.{pick_frames-Free, store-Stored}
use gt2_recomp.Mcd.Store.New.{store-IsSound}

pick_frames-bound : (n : ℕ) (img : Bytes) (i need : ℕ) → length (pick_frames n img i need) ≤ n
unfolding pick_frames
pick_frames-bound zero img i need = omega arith
pick_frames-bound (suc n) img i zero = omega arith
pick_frames-bound (suc n) img i (suc need) = elim (Bool-cases (entry_in_use img i)) [
  | inl busy ↦ rw busy (omega (arith, pick_frames-bound n img (i + 1) (suc need)))
  | inr idle ↦ rw idle (omega (arith, pick_frames-bound n img (i + 1) need))
]

-- what a call that stores has passed
write_file-stored :
    (fuel : ℕ) (img : Bytes) (name : List ℕ) (data_ptr : Bytes) (size : ℕ) (used : ℕ → Bool)
    (out : Bytes)
    → used_blocks fuel img ≡ some used
    → write_file fuel img name data_ptr size ≡ some (ok out)
    → (request_ok name size ≡ true)
      × (store img 0
            (pick_frames dir_entries img 0 (size / 8192))
            (pick_blocks 15 used 1 (size / 8192))
            name
            data_ptr
            size
          ≡ out)
unfolding write_file
write_file-stored fuel img name data_ptr size used out marks h =
    let h' = rw (write_file, marks) at h in (ground (arith, h'), ground (arith, h'))

request_ok-bounds :
    (name : List ℕ) (size : ℕ)
    → request_ok name size ≡ true
    → (length name ≤ 20) × (size ≤ 15 * 8192)
unfolding request_ok
request_ok-bounds name size h = (ground (arith, h), ground (arith, h))

-- A write that succeeds keeps the card sound.
pub write_file-IsSound :
    (fuel : ℕ) (img : Bytes) (name : List ℕ) (data_ptr : Bytes) (size : ℕ) (out : Bytes)
    → 15 ≤ fuel
    → IsSound fuel img
    → write_file fuel img name data_ptr size ≡ some (ok out)
    → IsSound fuel out
write_file-IsSound fuel img name data_ptr size out enough sound h =
    let frames = pick_frames dir_entries img 0 (size / 8192) in
    let (used, marks, own) = used_blocks_iff fuel img sound in
    let picked : pick_blocks 15 used 1 (size / 8192) ≡ map suc frames =
      pick_blocks-map 15 0 (size / 8192) img used (λ j lo hi. own j hi) in
    let (good, same) = write_file-stored fuel img name data_ptr size used out marks h in
    let (short, small) = request_ok-bounds name size good in
    let idle = pick_frames-Free 15 img 0 (size / 8192) (omega arith) in
    let (s, kept) = store-Stored img img 0 0 frames name data_ptr size idle short (omega arith) in
    let same' : store img 0 frames (map suc frames) name data_ptr size ≡ out = rw picked at same in
    let few = pick_frames-bound 15 img 0 (size / 8192) in
    rw same' at (
      store-IsSound fuel img (store img 0 frames (map suc frames) name data_ptr size) data_ptr size
        frames sound idle s kept (omega arith))

-- the cards that gt2_mcd_format and successful calls of gt2_mcd_write make
pub data Reached : Bytes → Type 0 where
  formatted : (m : Bytes) → Reached (format m)
  written :
      (img : Bytes) (name : List ℕ) (data_ptr : Bytes) (size : ℕ) (out : Bytes)
      → Reached img
      → write_file 15 img name data_ptr size ≡ some (ok out)
      → Reached out

format-IsSound : (fuel : ℕ) (m : Bytes) → IsSound fuel (format m)
unfolding entry_in_use in_use
format-IsSound fuel m = record {
  links = λ i h used. absurd (none_used i h used);
  ends = λ i h used. absurd (none_used i h used);
}
  where
    none_used : (i : ℕ) → i < 15 → ¬ (entry_in_use (format m) i ≡ true)
    none_used i h used = cc (rw (entry_in_use, format-dir m i h) at used)

-- On each card that formatting and writing make, the chain of an entry in use stays in frames in use and
-- ends within 15 steps, so that the search for used blocks ends.
pub Reached-IsSound : (img : Bytes) → Reached img → IsSound 15 img
Reached-IsSound img (formatted m) = format-IsSound 15 m
Reached-IsSound img (written before name data_ptr size _ r h) =
    write_file-IsSound 15 before name data_ptr size img (omega arith) (Reached-IsSound before r) h
