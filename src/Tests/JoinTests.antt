-- ===== src/Tests/JoinTests.antt =====
-- A chain of two gzip members in two sectors, with a decoder that writes one byte of each.
use gt2_recomp.Prelude.{ℕ, ◌≡◌, refl, true, false, some, List, [], ◌∷◌, ok, err}
use gt2_recomp.Bytes.{Bytes, zeros, write}
use gt2_recomp.Inflate.{Zlib, stream_end}
use gt2_recomp.Tim.{truncated, no_mem}
use gt2_recomp.Tim.Join.{gunzip_join, join_loop, member_loop}

abbrev third_byte : Zlib
third_byte = record {
  Stream = List ℕ;
  start = λ bits buf n. some (buf 2 ∷ []);
  run = λ s room. ([], (stream_end, s));
  used = λ s. 20;
}

abbrev chain : Bytes
chain =
    write (write (write (write (write (write zeros 0 0x1F) 1 0x8B) 2 7) 2048 0x1F) 2049 0x8B) 2050 8

joins : gunzip_join 1 third_byte (λ n. true) chain 2100 ≡ some (ok (7 ∷ 8 ∷ []))
unfolding gunzip_join join_loop member_loop
joins = refl

no_member : gunzip_join 1 third_byte (λ n. true) zeros 2100 ≡ some (err truncated)
unfolding gunzip_join join_loop
no_member = refl

refused : gunzip_join 1 third_byte (λ n. false) chain 2100 ≡ some (err no_mem)
unfolding gunzip_join
refused = refl
