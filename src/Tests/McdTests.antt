-- ===== src/Tests/McdTests.antt =====
-- A formatted card, and a card with one file of two blocks.
use gt2_recomp.Prelude.{
  ℕ, ◌%◌, List, some, false, ◌≡◌, refl, true, ok, err, arith, [], ◌∷◌, if◌then◌else◌, ◌==◌, ◌||◌,
}
use gt2_recomp.Bytes.{Bytes, zeros, times}
use gt2_recomp.Mcd.{
  free_frame, broken_frame, header_frames, frame_checksum, xor_sum, in_use, st_free, st_first, dir,
  format, header_ok, file_count, read, entry_at, read_blocks, next_block, not_found,
}
use gt2_recomp.Mcd.Fresh.{format-dir, format-empty}
use gt2_recomp.Mcd.Chains.{Chain, one, more}
use gt2_recomp.Mcd.Store.{write_file, name_taken}
use gt2_recomp.Mcd.Store.Used.{IsSound}
use gt2_recomp.Mcd.Store.RoundTrip.{Holding, write_file-read}
use gt2_recomp.Mcd.Store.Reached.{formatted, written, Reached-IsSound}
use gt2_recomp.Mcd.Reads.{ReadsChain, read-ReadsChain, read-total}

fresh_entry :
    dir (format zeros) 3
    ≡ ok (record { state = st_free; size = 0; next = 0xFFFF; name = []; checksum_ok = true })
fresh_entry = format-dir zeros 3 (omega arith)

format-empty_here : (header_ok (format zeros) ≡ true) × (file_count (format zeros) ≡ 0)
format-empty_here = format-empty zeros

-- entry 0 is in use with 16384 bytes and links to block 3; block 3 ends the chain
abbrev card : Bytes
card k =
    if k == 128
    then st_first
    else if k == 133
    then 0x40
    else if k == 136
    then 2
    else if k == 137
    then 0
    else if k == 392 || k == 393
    then 0xFF
    else 0

abbrev file : Bytes
unfolding read dir entry_at
file = elim (read card 0 true) [ ok (buf, size) ↦ buf | err e ↦ zeros ]

reads : read card 0 true ≡ ok (file, 16384)
unfolding read dir entry_at read_blocks next_block
reads = refl

not_first : read card 1 true ≡ err not_found
unfolding read dir entry_at
not_first = refl

read-ReadsChain_example : ReadsChain card 0 file 16384
read-ReadsChain_example = read-ReadsChain card 0 true file 16384 reads

card-Chain : Chain card 1 (1 ∷ 3 ∷ [])
card-Chain = more (omega arith) (omega arith) (omega arith) (one (omega arith) (omega arith))

read-total_example : (buf : Bytes) × (read card 0 true ≡ ok (buf, 16384))
read-total_example = read-total card 0 (1 ∷ 3 ∷ []) (omega arith) refl card-Chain refl (omega arith)

abbrev save_name : List ℕ
save_name = 0x42 ∷ 0x41 ∷ []

abbrev save_data : Bytes
save_data k = k % 251

no_name_taken : name_taken 15 (format zeros) 0 save_name ≡ false
unfolding name_taken dir entry_at in_use format free_frame broken_frame header_frames frame_checksum
    times xor_sum
no_name_taken = refl

empty_card-IsSound : IsSound 15 (format zeros)
empty_card-IsSound = Reached-IsSound (format zeros) (formatted zeros)

write_file-read_example :
    (out : Bytes) × (i : ℕ) × (write_file 15 (format zeros) save_name save_data 16384
      ≡ some (ok out))
    × Holding (format zeros) 16384 save_data out i
write_file-read_example =
    write_file-read 15 (format zeros) save_name save_data 16384 2 empty_card-IsSound
      (omega arith, omega arith) (omega arith, omega arith, refl) no_name_taken
      (omega (arith, (format-empty zeros).1))

-- a card with the file
abbrev with_file :
    (out : Bytes) × (i : ℕ) × (write_file 15 (format zeros) save_name save_data 16384
      ≡ some (ok out))
    × Holding (format zeros) 16384 save_data out i
with_file =
    write_file-read 15 (format zeros) save_name save_data 16384 2 empty_card-IsSound
      (omega arith, omega arith) (omega arith, omega arith, refl) no_name_taken
      (omega (arith, (format-empty zeros).1))

Reached-IsSound_example : IsSound 15 with_file.0
Reached-IsSound_example =
    Reached-IsSound with_file.0
      (written (format zeros) save_name save_data 16384 with_file.0 (formatted zeros) with_file.2)
