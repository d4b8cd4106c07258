-- ===== src/Tests/OvlTests.antt =====
-- The container of the small disc, read with a decoder that hands out one byte a call.
use gt2_recomp.Prelude.{
  ℕ, zero, suc, ◌+◌, ◌≤◌, ◌<◌, ◌≡◌, ◌^◌, refl, true, some, List, [], ◌∷◌, ◌++◌, ◌⊎◌, ok, err, arith,
  inl, inr, length, ◌-◌,
}
use gt2_recomp.Bytes.{Bytes, zeros, copy}
use gt2_recomp.Cd.{read_sector, file_off, pread}
use gt2_recomp.Cd.Pread.{cooked}
use gt2_recomp.Iso.{stat, root_dir, skip_slashes, scan_dir, scan_sector, has_slash, bytes_at}
use gt2_recomp.Inflate.{Zlib, Decodes, Code, z_ok, stream_end}
use gt2_recomp.Ovl.{
  Ovl, members, open_ovl, handle_of, checked, sane, read_member, inflate_loop, member_range, inval,
}
use gt2_recomp.Ovl.Layout.{Laid, open_ovl-Laid}
use gt2_recomp.Ovl.Unpacked.{read_member-content}
use gt2_recomp.Tests.Disc.{disc, disc-Readable}

abbrev by_one : List ℕ → ℕ → List ℕ × (Code × List ℕ)
by_one [] room = ([], (stream_end, []))
by_one (x ∷ xs) zero = (x ∷ xs, (z_ok, []))
by_one (x ∷ xs) (suc room) = (xs, (z_ok, x ∷ []))

abbrev copier : Zlib
unfolding bytes_at
copier = record {
  Stream = List ℕ;
  start = λ bits buf n. some (bytes_at n buf 0);
  run = by_one;
  used = λ s. 0;
}

abbrev opened : Ovl
opened = handle_of disc 18 60 (copy zeros 0 (λ i. disc.file.at (36864 + (0 + i))) 48)

opens : open_ovl disc true ≡ ok opened
unfolding open_ovl stat root_dir scan_dir scan_sector skip_slashes has_slash read_sector pread
    checked handle_of
opens = refl

third_range : member_range opened 2 ≡ ok (52, 2)
unfolding member_range handle_of
third_range = refl

no_seventh : member_range opened 6 ≡ err inval
unfolding member_range
no_seventh = refl

unpacks : read_member 3 copier opened (λ n. true) 2 ≡ some (ok (104 ∷ 105 ∷ [], 2))
unfolding read_member inflate_loop handle_of pread read_sector bytes_at
unpacks = refl

-- A size that wraps the sum past 2 ^ 32 passes the sanity loop: the first member here claims 4 GiB.
wrapped_size : sane 1 48 (record opened { comp = λ i. 2 ^ 32 - 1; file_size = 60 }) 0 ≡ true
unfolding sane handle_of
wrapped_size = refl

small : (i : ℕ) → i < members → opened.off i + opened.comp i < 2 ^ 32
unfolding handle_of
small zero h = omega arith
small (suc zero) h = omega arith
small (suc (suc zero)) h = omega arith
small (suc (suc (suc zero))) h = omega arith
small (suc (suc (suc (suc zero)))) h = omega arith
small (suc (suc (suc (suc (suc zero))))) h = omega arith
small (suc (suc (suc (suc (suc (suc i)))))) h = absurd (omega arith)

open_ovl-Laid_example : Laid opened
open_ovl-Laid_example = open_ovl-Laid disc true opened opens small

by_one_fits : (s : List ℕ) (room : ℕ) → Unit {0} → length (by_one s room).1.1 ≤ room
by_one_fits [] room u = omega arith
by_one_fits (x ∷ xs) zero u = omega arith
by_one_fits (x ∷ xs) (suc room) u = omega arith

by_one_splits : (s : List ℕ) (room : ℕ) → Unit {0} → s ≡ (by_one s room).1.1 ++ (by_one s room).0
by_one_splits [] room u = refl
by_one_splits (x ∷ xs) zero u = refl
by_one_splits (x ∷ xs) (suc room) u = refl

by_one_goes_on :
    (s : List ℕ) (room : ℕ)
    → Unit {0}
    → 0 < room
    → (((by_one s room).1.0 ≡ stream_end) × ((by_one s room).0 ≡ []))
      ⊎ (((by_one s room).1.0 ≡ z_ok) × Unit {0} × (length (by_one s room).0 < length s))
by_one_goes_on [] room u h = inl (refl, refl)
by_one_goes_on (x ∷ xs) zero u h = absurd (omega arith)
by_one_goes_on (x ∷ xs) (suc room) u h = inr (refl, tt, omega arith)

copier-Decodes : Decodes copier
unfolding copier
copier-Decodes = record {
  IsIntact = λ s. Unit {0};
  content = λ s. s;
  work = length;
  fits = by_one_fits;
  splits = by_one_splits;
  goes_on = by_one_goes_on;
}

two_bytes :
    (buf : Bytes)
    → ((k : ℕ) → k < 2 → buf k ≡ cooked disc (36916 + k))
    → bytes_at 2 buf 0 ≡ 104 ∷ 105 ∷ []
unfolding bytes_at cooked file_off
two_bytes buf h =
    let a : buf 0 ≡ 104 = h 0 (omega arith) in let b : buf 1 ≡ 105 = h 1 (omega arith) in cc (a, b)

read_member-content_example :
    (enough : ℕ) × ((fuel : ℕ)
      → enough ≤ fuel
      → read_member fuel copier opened (λ n. true) 2 ≡ some (ok (104 ∷ 105 ∷ [], 2)))
unfolding handle_of copier copier-Decodes
read_member-content_example =
    read_member-content copier copier-Decodes opened (λ n. true) 2 (104 ∷ 105 ∷ []) (λ n. refl)
      (omega arith) (omega arith) (omega arith) (disc-Readable 36916 2 (omega arith))
      (λ buf h. (bytes_at 2 buf 0, refl, tt, two_bytes buf h))
