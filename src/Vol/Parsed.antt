-- ===== src/Vol/Parsed.antt =====
-- What parse_tables leaves in a handle.
use gt2_recomp.Prelude.{
  ℕ, zero, suc, ◌+◌, ◌*◌, ◌^◌, ◌<◌, ◌≤◌, ◌≡◌, ◌≢◌, refl, sym, ◌∙◌, true, false, none, some, ok,
  arith, ◌==◌, Bool-cases, inl, inr, All, length, Option-cases,
}
use gt2_recomp.Bytes.{Bytes, le16, le32}
use gt2_recomp.Vol.{
  Vol, Name, Backend, Alloc, vol_magic, vol_base, dir_off, dir_cap, slot_off, read_at, parse_tables,
  parse_body, handle_of, parse_names, parse_slots, all_zero, is_padding, name_of,
}
use gt2_recomp.Bytes.Laws.{IsByte, le16-lt}
use gt2_recomp.Vol.Source.{src, Window, Present, read_at-Window, read_at-total}

-- The handle agrees with the volume's bytes: the header, the offset table with its end marker, and
-- the tables of names and slots within the bounds that the other functions rely on.
pub record Parsed (b : Backend) (v : Vol) : Type 0 where
  pub backend : v.backend ≡ b
  pub magic : le32 (src b) 0 ≡ vol_magic
  pub data_count : v.data_count ≡ le16 (src b) 8
  pub entry_count : v.entry_count ≡ le16 (src b) 10
  pub nonempty : 0 < v.data_count
  pub tbl : (i : ℕ) → i ≤ v.data_count → v.tbl i ≡ le32 (src b) (0x10 + i * 4)
  pub names_in : All (λ (n : Name). n.index ≤ v.data_count) v.names
  pub slots_in : length v.slots ≤ v.entry_count

pub le32-Window :
    (b : Backend) (off len : ℕ) (w : Bytes) (o : ℕ)
    → Window b off len w
    → o + 4 ≤ len
    → le32 w o ≡ le32 (src b) (off + o)
le32-Window b off len w o h f =
    let e1 : off + o + 1 ≡ off + (o + 1) = omega arith in
    let e2 : off + o + 2 ≡ off + (o + 2) = omega arith in
    let e3 : off + o + 3 ≡ off + (o + 3) = omega arith in
    rw (e1, e2, e3)
      (omega (
        arith,
        h o (omega arith),
        h (o + 1) (omega arith),
        h (o + 2) (omega arith),
        h (o + 3) (omega arith),
      ))

le16-Window :
    (b : Backend) (off len : ℕ) (w : Bytes) (o : ℕ)
    → Window b off len w
    → o + 2 ≤ len
    → le16 w o ≡ le16 (src b) (off + o)
le16-Window b off len w o h f =
    let e1 : off + o + 1 ≡ off + (o + 1) = omega arith in
    rw e1 (omega (arith, h o (omega arith), h (o + 1) (omega arith)))

abbrev InTable : ℕ → Name → Type 0
InTable dc n = n.index ≤ dc

kept_name : (dc : ℕ) (rec : Bytes) → is_padding dc rec ≡ false → InTable dc (name_of rec)
unfolding is_padding name_of
kept_name dc rec h = ground arith

names_in_range : (n : ℕ) (b : Backend) (dc i : ℕ) → All (InTable dc) (parse_names n b dc i)
unfolding parse_names
names_in_range zero b dc i = tt
names_in_range (suc n) b dc i = elim (Option-cases (read_at b (dir_off + i * 32) 32)) [
  | inl e ↦ rw (e, All) tt
  | inr (rec, e) ↦ elim (Bool-cases (all_zero 32 rec)) [
    | inl z ↦ rw (e, z, All) tt
    | inr z ↦ elim (Bool-cases (is_padding dc rec)) [
      | inl p ↦ rw (e, z, p, All) (names_in_range n b dc (i + 1))
      | inr p ↦ rw (e, z, p, All) (kept_name dc rec p, names_in_range n b dc (i + 1))
    ]
  ]
]

slots_bounded : (n : ℕ) (b : Backend) (i : ℕ) → length (parse_slots n b i) ≤ n
unfolding parse_slots
slots_bounded zero b i = omega arith
slots_bounded (suc n) b i = elim (Option-cases (read_at b (slot_off + i * 32) 32)) [
  | inl e ↦ rw (e, length) (omega arith)
  | inr (rec, e) ↦ rw (e, length) (omega (arith, slots_bounded n b (i + 1)))
]

-- the header passes the checks, and the handle is made of what was read
record Body (b : Backend) (hdr table : Bytes) (v : Vol) : Type 0 where
  magic : le32 hdr 0 ≡ vol_magic
  nonempty : 0 < le16 hdr 8
  made : v ≡ handle_of b hdr table

parse_body-Body :
    (b : Backend) (alloc : Alloc) (hdr table : Bytes) (v : Vol)
    → read_at b 0x10 ((le16 hdr 8 + 1) * 4) ≡ some table
    → parse_body b alloc hdr ≡ ok v
    → Body b hdr table v
unfolding parse_body
parse_body-Body b alloc hdr table v e h = record {
  magic = ground arith;
  nonempty = ground arith;
  made = ground arith;
}

parse_body-table :
    (b : Backend) (alloc : Alloc) (hdr : Bytes) (v : Vol)
    → read_at b 0x10 ((le16 hdr 8 + 1) * 4) ≡ none
    → parse_body b alloc hdr ≢ ok v
unfolding parse_body
parse_body-table b alloc hdr v e h = ground arith

Body-Parsed :
    (b : Backend) (hdr table : Bytes) (v : Vol)
    → read_at b 0 16 ≡ some hdr
    → read_at b 0x10 ((le16 hdr 8 + 1) * 4) ≡ some table
    → vol_base + 0x10 + (le16 hdr 8 + 1) * 4 ≤ 2 ^ 32
    → Body b hdr table v
    → Parsed b v
unfolding handle_of
Body-Parsed b hdr table v e t small body =
    let head : Window b 0 16 hdr = read_at-Window b 0 16 hdr (omega arith) e in
    let words : Window b 0x10 ((le16 hdr 8 + 1) * 4) table =
      read_at-Window b 0x10 ((le16 hdr 8 + 1) * 4) table (omega arith) t in
    rw body.made (record {
      backend = refl;
      magic = sym (le32-Window b 0 16 hdr 0 head (omega arith)) ∙ body.magic;
      data_count = le16-Window b 0 16 hdr 8 head (omega arith);
      entry_count = le16-Window b 0 16 hdr 10 head (omega arith);
      nonempty = body.nonempty;
      tbl = λ i h. le32-Window b 0x10 ((le16 hdr 8 + 1) * 4) table (i * 4) words (omega arith);
      names_in = names_in_range dir_cap b (le16 hdr 8) 0;
      slots_in = slots_bounded (le16 hdr 10) b 0;
    })

header_count : (b : Backend) (hdr : Bytes) → read_at b 0 16 ≡ some hdr → le16 hdr 8 ≡ le16 (src b) 8
header_count b hdr e =
    le16-Window b 0 16 hdr 8 (read_at-Window b 0 16 hdr (omega arith) e) (omega arith)

pub parse_tables-Parsed_room :
    (b : Backend) (alloc : Alloc) (v : Vol)
    → vol_base + 0x10 + (le16 (src b) 8 + 1) * 4 ≤ 2 ^ 32
    → parse_tables b alloc ≡ ok v
    → Parsed b v
unfolding parse_tables
parse_tables-Parsed_room b alloc v room h = elim (Option-cases (read_at b 0 16)) [
  | inl e ↦ cc (rw e at h)
  | inr (hdr, e) ↦
      let h' : parse_body b alloc hdr ≡ ok v = rw e at h in
      elim (Option-cases (read_at b 0x10 ((le16 hdr 8 + 1) * 4))) [
        | inl t ↦ absurd (parse_body-table b alloc hdr v t h')
        | inr (table, t) ↦
            Body-Parsed b hdr table v e t (rw (header_count b hdr e) room)
              (parse_body-Body b alloc hdr table v t h')
      ]
]

-- Over a volume of bytes, a handle that parse_tables returns agrees with the header, has the offset
-- table of the volume with its end marker, names only table indices up to the end marker, and holds
-- no more slots than the header declares.
pub parse_tables-Parsed :
    (b : Backend) (alloc : Alloc) (v : Vol)
    → IsByte (src b)
    → parse_tables b alloc ≡ ok v
    → Parsed b v
parse_tables-Parsed b alloc v bytes h =
    parse_tables-Parsed_room b alloc v (omega (arith, le16-lt bytes 8)) h

-- What the bytes of a volume must be for parse_tables to succeed with every allocation granted.
pub record Parseable (b : Backend) : Type 0 where
  pub head : Present b 0 16
  pub magic : le32 (src b) 0 ≡ vol_magic
  pub nonempty : 0 < le16 (src b) 8
  pub room : vol_base + 0x10 + (le16 (src b) 8 + 1) * 4 ≤ 2 ^ 32
  pub table : Present b 0x10 ((le16 (src b) 8 + 1) * 4)

parse_body-total :
    (b : Backend) (hdr table : Bytes)
    → le32 hdr 0 ≡ vol_magic
    → 0 < le16 hdr 8
    → read_at b 0x10 ((le16 hdr 8 + 1) * 4) ≡ some table
    → parse_body b (λ n. true) hdr ≡ ok (handle_of b hdr table)
unfolding parse_body
parse_body-total b hdr table m n t =
    let e : (le32 hdr 0 == vol_magic) ≡ true = ground arith in
    let z : (le16 hdr 8 == 0) ≡ false = ground arith in rw (e, z, t) refl

-- A volume whose header is present with the magic and a file, and whose offset table is present within the
-- 32-bit image, is opened if every allocation is granted.
pub parse_tables-total :
    (b : Backend) → Parseable b → (v : Vol) × (parse_tables b (λ n. true) ≡ ok v)
unfolding parse_tables
parse_tables-total b p =
    let (hdr, e) = read_at-total b 0 16 (omega arith) p.head in
    let w = read_at-Window b 0 16 hdr (omega arith) e in
    let n = header_count b hdr e in
    let (table, t) =
      read_at-total b 0x10 ((le16 hdr 8 + 1) * 4) (omega (arith, p.room)) (rw n p.table) in
    (
      handle_of b hdr table,
      rw e (
          parse_body-total b hdr table (le32-Window b 0 16 hdr 0 w (omega arith) ∙ p.magic)
            (omega (arith, p.nonempty)) t),
    )
