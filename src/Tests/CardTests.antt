-- ===== src/Tests/CardTests.antt =====
-- Ticks of the card driver with callbacks that count their calls.
use gt2_recomp.Prelude.{ℕ, ◌+◌, ◌≡◌, refl, some, none, ok, err, arith}
use gt2_recomp.Bytes.{Bytes, zeros, write, put_u16}
use gt2_recomp.Card.Ticks.{
  Card, Callbacks, oob, ◌>>=◌, ◌>>◌, done, guard, call, ask, rd8, rd16u, rd32, wr8, wr16, data_byte,
  put_data,
}
use gt2_recomp.Card.{
  run, make_room, stamp_key, bump, shift_up, lanes, key_lane, key_typed, key_stamped,
}
use gt2_recomp.Card.Bounds.{KeepBlocks, run-IsSafe}
use gt2_recomp.Card.Safe.{IsSafe}
use gt2_recomp.Card.Insert.{Windowed, inserted, stamp_key-make_room}

abbrev counted : Card ℕ → Card ℕ
counted s = record s { world = s.world + 1 }

-- the text ends at 2
abbrev counting : Callbacks ℕ
counting = record {
  cfc4 = λ o s. counted s;
  be64 = λ o s. counted s;
  da80 = λ o s. counted s;
  c8fc4 = λ s. (2, counted s);
  ad3c = λ n s. (0, counted s);
  d400 = λ o s. counted s;
  op3524 = λ v s. counted s;
  op0840 = λ v s. counted s;
}

-- row 1, column 2, insertion point 1, limits 5 and 5
abbrev typing : Card ℕ
typing = record {
  state = write (write (write (write (write zeros 0x1A 1) 0x1B 2) 0x1C 1) 0x1E 5) 0x20 5;
  window = λ k. k + 65;
  world = 0;
}

abbrev key_event : Bytes
key_event = write zeros 5 0x0A

abbrev table : Bytes
table i = i + 100

types_key : (run counting (some key_event) 8 table 208 typing).0 ≡ ok 2
unfolding run bump lanes key_lane key_typed make_room shift_up stamp_key key_stamped ◌>>=◌ ◌>>◌ done
    guard call ask rd8 rd16u rd32 wr8 wr16 data_byte put_data put_u16
types_key = refl

key_stands : (run counting (some key_event) 8 table 208 typing).1.window 1 ≡ 118
unfolding run bump lanes key_lane key_typed make_room shift_up stamp_key key_stamped ◌>>=◌ ◌>>◌ done
    guard call ask rd8 rd16u rd32 wr8 wr16 data_byte put_data put_u16
key_stands = refl

small_window : (run counting (some key_event) 3 table 208 typing).0 ≡ err oob
unfolding run bump lanes key_lane key_typed make_room shift_up stamp_key key_stamped ◌>>=◌ ◌>>◌ done
    guard call ask rd8 rd16u rd32 wr8 wr16 data_byte put_data put_u16
small_window = refl

no_event : (run counting none 8 table 208 typing).0 ≡ ok 2
unfolding run bump ◌>>=◌ ◌>>◌ done call rd16u rd32 wr16 put_u16
no_event = refl

stamp_key-make_room_example :
    (t : Card ℕ) × ((make_room 8 2 1 >> stamp_key 8 table 208 1) typing ≡ (ok tt, t))
    × Windowed typing t (inserted typing.window 1 2 118)
stamp_key-make_room_example =
    stamp_key-make_room 8 2 1 table 208 typing (omega arith) (omega arith) (omega arith)
      (omega arith)

counted_keeps : KeepBlocks 8 counting
counted_keeps = record {
  cfc4 = λ o s. record { state = λ k h. refl; window = λ k h. refl };
  be64 = λ o s. record { state = λ k h. refl; window = λ k h. refl };
  da80 = λ o s. record { state = λ k h. refl; window = λ k h. refl };
  c8fc4 = λ s. record { state = λ k h. refl; window = λ k h. refl };
  ad3c = λ n s. record { state = λ k h. refl; window = λ k h. refl };
  d400 = λ o s. record { state = λ k h. refl; window = λ k h. refl };
  op3524 = λ v s. record { state = λ k h. refl; window = λ k h. refl };
  op0840 = λ v s. record { state = λ k h. refl; window = λ k h. refl };
}

run-IsSafe_example : IsSafe 8 (run counting (some key_event) 8 table 208)
run-IsSafe_example = run-IsSafe counting counted_keeps (some key_event) table 208
