-- ===== src/Tests/MenuTests.antt =====
-- Menu records, a tick with emitters that fill an arena, and the packet emitters themselves.
use gt2_recomp.Prelude.{
  ℕ, ◌+◌, ◌-◌, ◌%◌, ◌^◌, ◌≤◌, ◌<◌, ◌≡◌, ◌⊎◌, refl, Bool, true, false, some, none, Outcome, ok, err,
  arith, ltb, ◌==◌, Bool-cases, inl, inr, if◌then◌else◌,
}
use gt2_recomp.Bytes.{zeros, u32}
use gt2_recomp.Menu.{
  MenuRec, MenuList, Screen, Emitters, bumped, div3, ◌>>=◌, ◌>>◌, done, filled, fill_pkt,
}
use gt2_recomp.Menu.Tick.{emit_tick, full_path, first_pair, stanza}
use gt2_recomp.Menu.Counter.{bumps, bumps-lifetime}
use gt2_recomp.Menu.Twelfth.{div3-twelfth}
use gt2_recomp.Menu.Arena.{Arena, Taken, Takes, Allots, emit_tick-Takes}
use gt2_recomp.Render.{RenderStatus, Emitted, word_floor, emit, emitted, packet, oob}
use gt2_recomp.Render.Arena.{PacketIn, Untouched, emit-PacketIn, packet_outside}

abbrev item : MenuRec
item = record { b0 = 0; b1 = 0; h2 = 24; h4 = 100; h6 = 50; b8 = 96; list = 0; cnt = 10; x12 = 128 }

abbrev block : MenuList
block = record { addr = 0x80010000; w0 = 7; w4 = 9; h4 = 20; h6 = 10; h8 = 3 }

bumps-lifetime_example : bumps 5 item ≡ record item { cnt = 12 }
bumps-lifetime_example = bumps-lifetime 5 item (omega arith)

wraps : bumped 32767 ≡ 32768
unfolding bumped
wraps = refl

div3-twelfth_example : (div3 100 ≡ 8) × (div3 (u32 (2 ^ 32 - 100)) ≡ u32 (2 ^ 32 - 8))
div3-twelfth_example = div3-twelfth 100 (omega arith)

-- The packet emitters over an arena of 512 bytes at 4096 and a frame at 256; the context is the offset
-- of the arena's top.
abbrev arena_of : Outcome RenderStatus Emitted → Screen ℕ → ℕ × Screen ℕ
arena_of (ok out) s = (out.pkt, record { memory = out.mem; world = out.top })
arena_of (err e) s = (0, s)

abbrev painter : Emitters ℕ
painter = record {
  emit_a = λ flags s. arena_of (emit true s.memory 4096 512 0 s.world 256 8 flags 0) s;
  emit_b = λ flags s. arena_of (emit false s.memory 4096 512 0 s.world 256 8 flags 0) s;
  emit_s = λ cell s. s;
}

abbrev canvas : Arena ℕ
canvas = record {
  top = λ w. 4096 + w;
  limit = 4608;
  IsSound = λ w. w % 4 ≡ 0;
  IsLink = λ k. (256 ≤ k) × (k < 260);
  short_size = 0;
}

abbrev left_by : Bool → ℕ → Screen ℕ → Emitted
left_by is_a flags s = emitted is_a 4096 s.world (packet is_a s.memory 4096 0 s.world 256 flags 0)

paints :
    (is_a : Bool) (flags : ℕ) (s : Screen ℕ)
    → s.world % 4 ≡ 0
    → s.world + 8 ≤ 512
    → emit is_a s.memory 4096 512 0 s.world 256 8 flags 0 ≡ ok (left_by is_a flags s)
unfolding emit
paints is_a flags s aligned room =
    let a : ltb 512 (s.world + 8) ≡ false = ground arith in
    let b : ((4096 + s.world + 2) % 4 == 3) ≡ false = ground arith in rw (a, b) refl

untouched :
    (w k n : ℕ)
    → w % 4 ≡ 0
    → 8 ≤ n
    → w + n ≤ 512
    → (k < 4096 + w) ⊎ (4096 + u32 (w + n) ≤ k)
    → ¬ ((256 ≤ k) × (k < 260))
    → Untouched (4096 + w) 256 k
untouched w k n aligned few room out off = record {
  packet = apart out;
  link = elim (Bool-cases (ltb k 256)) [
    | inl below ↦ inl (ground (arith, below))
    | inr above ↦ elim (Bool-cases (ltb k 260)) [
      | inl inside ↦ absurd (off (ground (arith, above), ground (arith, inside)))
      | inr beyond ↦ inr (ground (arith, beyond))
    ]
  ];
}
  where
    apart :
        (k < 4096 + w) ⊎ (4096 + u32 (w + n) ≤ k)
        → (k < word_floor (4096 + w + 2)) ⊎ (4096 + w + 8 ≤ k)
    apart (inl low) = inl (omega (arith, aligned, low))
    apart (inr high) = inr (omega (arith, high, few, room))

painted-Taken :
    (is_a : Bool) (flags n : ℕ) (s : Screen ℕ)
    → (if is_a then 20 else 8) ≡ n
    → s.world % 4 ≡ 0
    → s.world + n ≤ 512
    → Taken canvas n s
        (record { memory = (left_by is_a flags s).mem; world = (left_by is_a flags s).top })
painted-Taken true flags n s size aligned room = record {
  sound = omega (arith, size);
  low = omega (arith, size);
  high = omega (arith, size);
  same = λ k out off.
      packet_outside true s.memory 4096 0 s.world 256 flags 0 k
        (untouched s.world k 20 aligned (omega arith) (omega (arith, size)) out off);
}
painted-Taken false flags n s size aligned room = record {
  sound = omega (arith, size);
  low = omega (arith, size);
  high = omega (arith, size);
  same = λ k out off.
      packet_outside false s.memory 4096 0 s.world 256 flags 0 k
        (untouched s.world k 8 aligned (omega arith) (omega (arith, size)) out off);
}

painter-Allots : Allots canvas painter
painter-Allots = record {
  a_taken = λ flags s aligned room.
      rw (paints true flags s aligned (omega arith))
        (painted-Taken true flags 20 s refl aligned (omega arith));
  a_packet = λ flags s aligned room.
      rw (paints true flags s aligned (omega arith)) (omega arith, omega arith);
  b_taken = λ flags s aligned room.
      rw (paints false flags s aligned (omega arith))
        (painted-Taken false flags 8 s refl aligned (omega arith));
  s_taken = λ cell s aligned room. record {
    sound = aligned;
    low = omega arith;
    high = omega arith;
    same = λ k out off. refl;
  };
}

emit_tick-Takes_example : Takes canvas 140 (emit_tick item 0 block painter)
emit_tick-Takes_example = emit_tick-Takes canvas painter painter-Allots item block 0

abbrev blank : Screen ℕ
blank = record { memory = zeros; world = 0 }

-- the shortcut stanza: a packet, its fill, and the last call
shortcut : (emit_tick item 0 block painter blank).0 ≡ some 4120
unfolding emit_tick full_path first_pair stanza ◌>>=◌ ◌>>◌ done filled fill_pkt emit
shortcut = refl

two_packets : (emit_tick item 0 block painter blank).1.world ≡ 28
unfolding emit_tick full_path first_pair stanza ◌>>=◌ ◌>>◌ done filled fill_pkt emit
two_packets = refl

parked : (emit_tick (record item { cnt = 0xFFFF }) 0 block painter blank).0 ≡ none
unfolding emit_tick done
parked = refl

-- an A packet at the start of an arena of 64 bytes at 4096, the frame at 256
emits :
    emit true zeros 4096 64 0 4 256 8 5 0
    ≡ ok (emitted true 4096 4 (packet true zeros 4096 0 4 256 5 0))
unfolding emit
emits = refl

emit-PacketIn_example :
    PacketIn true zeros 4096 64 4 256 (emitted true 4096 4 (packet true zeros 4096 0 4 256 5 0))
emit-PacketIn_example =
    emit-PacketIn true zeros 4096 64 0 4 256 8 5 0
      (emitted true 4096 4 (packet true zeros 4096 0 4 256 5 0)) (omega arith) emits

-- An arena of 8 bytes takes an A header, whose 12 bytes to fill then lie after the arena.
full_arena :
    emit true zeros 4096 8 0 0 256 8 5 0
    ≡ ok (emitted true 4096 0 (packet true zeros 4096 0 0 256 5 0))
unfolding emit
full_arena = refl

no_room : emit false zeros 4096 64 0 57 256 8 5 0 ≡ err oob
unfolding emit
no_room = refl
