-- ===== src/Tests/Samples.antt =====
-- A small GTFS volume of five files as bytes, the handle that it parses to, and a tree of slots.
use gt2_recomp.Prelude.{
  ℕ, zero, suc, ◌+◌, ◌-◌, ◌^◌, ◌<◌, ◌≤◌, ◌≡◌, refl, true, List, [], ◌∷◌, ok, arith, All, get_or,
}
use gt2_recomp.Bytes.{Bytes, zeros, copy}
use gt2_recomp.Bytes.Laws.{IsByte}
use gt2_recomp.Vol.{Vol, Slot, Backend, blob, Alloc, vol_base, read_at, handle_of, parse_tables}
use gt2_recomp.Vol.Source.{src, FitsImage}
use gt2_recomp.Vol.Parsed.{Parsed, parse_tables-Parsed}
use gt2_recomp.Vol.Walk.{Entry}

-- magic, five data files, no entries, offsets 0, 0, 64, 70, 75 and the marker 0
abbrev pub extent : List ℕ
extent =
    b'G' ∷ b'T' ∷ b'F' ∷ b'S' ∷ 0 ∷ 0 ∷ 0 ∷ 0 ∷ 5 ∷ 0 ∷ 0 ∷ 0 ∷ 0 ∷ 0 ∷ 0 ∷ 0 ∷ 0 ∷ 0 ∷ 0 ∷ 0 ∷ 0
    ∷ 0 ∷ 0 ∷ 0 ∷ 64 ∷ 0 ∷ 0 ∷ 0 ∷ 70 ∷ 0 ∷ 0 ∷ 0 ∷ 75 ∷ 0 ∷ 0 ∷ 0 ∷ 0 ∷ 0 ∷ 0 ∷ 0 ∷ 1 ∷ 2 ∷ 3 ∷ 4
    ∷ 5 ∷ 6 ∷ 7 ∷ 8 ∷ 9 ∷ 10 ∷ 11 ∷ 12 ∷ 13 ∷ 14 ∷ 15 ∷ 16 ∷ 17 ∷ 18 ∷ 19 ∷ 20 ∷ 21 ∷ 22 ∷ 23 ∷ 24
    ∷ 101 ∷ 102 ∷ 103 ∷ 104 ∷ 105 ∷ 106 ∷ 201 ∷ 202 ∷ 203 ∷ 204 ∷ 205 ∷ []

abbrev pub extent_bytes : Bytes
extent_bytes k = get_or extent k 0

abbrev pub extent_backend : Backend
extent_backend = blob extent_bytes 75

abbrev pub granted : Alloc
granted = λ n. true

abbrev pub extent_vol : Vol
extent_vol =
    handle_of extent_backend (copy zeros 0 (λ k. extent_bytes (0 + k)) 16)
      (copy zeros 0 (λ k. extent_bytes (0x10 + k)) 24)

pub extent_parses : parse_tables extent_backend granted ≡ ok extent_vol
unfolding parse_tables read_at handle_of
extent_parses = refl

pub get_or-byte : (xs : List ℕ) (k : ℕ) → All (λ x. x < 256) xs → get_or xs k 0 < 256
get_or-byte [] k h = omega arith
get_or-byte (x ∷ xs) zero h = h.0
get_or-byte (x ∷ xs) (suc k) h = get_or-byte xs k h.1

pub extent-IsByte : IsByte (src extent_backend)
unfolding src
extent-IsByte = record { small = λ k. get_or-byte extent k (omega arith) }

pub extent-Parsed : Parsed extent_backend extent_vol
extent-Parsed = parse_tables-Parsed extent_backend granted extent_vol extent-IsByte extent_parses

extent_fits : (i : ℕ) → i ≤ 5 → vol_base + extent_vol.tbl i ≤ 2 ^ 32 - 1
unfolding handle_of
extent_fits zero h = omega arith
extent_fits (suc zero) h = omega arith
extent_fits (suc (suc zero)) h = omega arith
extent_fits (suc (suc (suc zero))) h = omega arith
extent_fits (suc (suc (suc (suc zero)))) h = omega arith
extent_fits (suc (suc (suc (suc (suc zero))))) h = omega arith
extent_fits (suc (suc (suc (suc (suc (suc i)))))) h = absurd (omega arith)

pub extent-FitsImage : FitsImage extent_vol
unfolding handle_of
extent-FitsImage = record { within = extent_fits }

abbrev slot : ℕ → ℕ → List ℕ → Slot
slot next flags name = record { date = 0; next = next; flags = flags; name = name }

abbrev pub name_d : List ℕ
name_d = b'D' ∷ []

abbrev pub name_a : List ℕ
name_a = b'A' ∷ []

abbrev pub name_b : List ℕ
name_b = b'B' ∷ []

-- D (a directory) and A in the root; B and A in D
abbrev pub tree : Vol
tree = record {
  backend = extent_backend;
  data_count = 5;
  entry_count = 4;
  tbl = λ i. get_or (0 ∷ 0 ∷ 64 ∷ 70 ∷ 75 ∷ 0 ∷ []) i 0;
  names = record { name = name_b; index = 3; hash = 0 } ∷ [];
  slots = slot 2 1 name_d ∷ slot 2 128 name_a ∷ slot 3 0 name_b ∷ slot 4 128 name_a ∷ [];
}

get_or-below : (xs : List ℕ) (k n : ℕ) → All (λ x. x ≤ n) xs → get_or xs k 0 ≤ n
get_or-below [] k n h = omega arith
get_or-below (x ∷ xs) zero n h = h.0
get_or-below (x ∷ xs) (suc k) n h = get_or-below xs k n h.1

tree_fits : (i : ℕ) → i ≤ 5 → vol_base + tree.tbl i ≤ 2 ^ 32 - 1
tree_fits i h = omega (arith, get_or-below (0 ∷ 0 ∷ 64 ∷ 70 ∷ 75 ∷ 0 ∷ []) i 75 (omega arith))

pub tree-FitsImage : FitsImage tree
tree-FitsImage = record { within = tree_fits }

-- "/D/B"
abbrev pub path_b : List ℕ
path_b = b'/' ∷ b'D' ∷ b'/' ∷ b'B' ∷ []

-- "D"
abbrev pub path_d : List ℕ
path_d = name_d

abbrev pub entry_b : Entry
entry_b = record { date = 0; slot = 2; next = 3; flags = 0; name = name_b }

abbrev pub entry_d : Entry
entry_d = record { date = 0; slot = 0; next = 2; flags = 1; name = name_d }
