-- ===== src/Vol/Walk.antt =====
-- Path walks over the entry table: gt2_vol_stat_path, gt2_vol_find_path, gt2_vol_read_path,
-- gt2_vol_list_dir and gt2_vol_span of decomp/src/vol/vol.c. A path is the bytes of a C string.
pub mod Scan
pub mod Resolve
pub mod Paths
pub mod Files
pub mod Listing
use gt2_recomp.Prelude.{
  ℕ, zero, suc, ◌+◌, ◌-◌, ◌*◌, ◌/◌, ◌%◌, Bool, true, false, ◌&&◌, ◌||◌, Option, none, some, List,
  [], ◌∷◌, Outcome, ok, err, ◌>>=◌, ◌>>◌, guard, ltb, leb, ◌==◌, if◌then◌else◌, not, length, drop,
}
use gt2_recomp.Bytes.{Bytes, sub32, str_eq}
use gt2_recomp.Vol.{
  Vol, Slot, VolStatus, not_found, truncated, inval, is_dir, name_max, file_range, read_range,
}

-- gt2_vol_entry_t
pub record Entry : Type 0 where
  pub date : ℕ
  pub slot : ℕ
  pub next : ℕ
  pub flags : ℕ
  pub name : List ℕ

abbrev pub entry_of : ℕ → Slot → Entry
entry_of i s = record { date = s.date; slot = i; next = s.next; flags = s.flags; name = s.name }

-- flags & GT2_VOL_FLAG_DIR
abbrev pub has_dir : ℕ → Bool
has_dir flags = flags % 2 == 1

-- flags & GT2_VOL_FLAG_END
abbrev pub has_end : ℕ → Bool
has_end flags = flags / 128 % 2 == 1

abbrev pub slash : ℕ
slash = b'/'

-- The inner loop of gt2_vol_stat_path over `slots[i..]`. No slot is left at `i >= slot_count`.
unfoldable pub scan : List ℕ → List Slot → ℕ → Outcome VolStatus Entry
scan comp [] i = err truncated
scan comp (s ∷ rest) i =
    let later = scan comp rest (i + 1) in
    if str_eq s.name comp
    then ok (entry_of i s)
    else if has_end s.flags
    then err not_found
    else later

unfoldable pub skip_slashes : List ℕ → List ℕ
skip_slashes [] = []
skip_slashes (c ∷ cs) = if c == slash then skip_slashes cs else c ∷ cs

cons_head : ℕ → List (List ℕ) → List (List ℕ)
cons_head c [] = (c ∷ []) ∷ []
cons_head c (w ∷ ws) = (c ∷ w) ∷ ws

-- The components that the successive strchr(path, '/') cut off. There is always one.
unfoldable pub components : List ℕ → List (List ℕ)
unfolding cons_head
components [] = [] ∷ []
components (c ∷ cs) = if c == slash then [] ∷ components cs else cons_head c (components cs)

-- the test on the length of a component
unfoldable pub component_ok : List ℕ → Bool
component_ok comp = not (length comp == 0) && leb (length comp) name_max

-- a hit with components left: where the child listing starts
unfoldable pub descend : Vol → Entry → Outcome VolStatus ℕ
descend v hit = do
  guard (has_dir hit.flags) not_found
  guard (ltb hit.next (length v.slots)) truncated
  ok hit.next

-- one component looked up in the listing that starts at slot `cur`
unfoldable pub lookup_component : Vol → ℕ → List ℕ → Outcome VolStatus Entry
unfolding scan component_ok
lookup_component v cur comp = do guard (component_ok comp) inval; scan comp (drop cur v.slots) cur

-- the outer loop of gt2_vol_stat_path
unfoldable pub walk : Vol → ℕ → List ℕ → List (List ℕ) → Outcome VolStatus Entry
unfolding lookup_component descend
walk v cur comp [] = lookup_component v cur comp
walk v cur comp (next ∷ more) = do
  hit ← lookup_component v cur comp
  child ← descend v hit
  walk v child next more

walk_all : Vol → List (List ℕ) → Outcome VolStatus Entry
unfolding walk
walk_all v [] = err inval
walk_all v (comp ∷ more) = walk v 0 comp more

walk_path : Vol → List ℕ → Outcome VolStatus Entry
unfolding walk_all components
walk_path v [] = err inval
walk_path v (c ∷ cs) = walk_all v (components (c ∷ cs))

-- gt2_vol_stat_path
unfoldable pub stat_path : Vol → List ℕ → Outcome VolStatus Entry
unfolding walk_path skip_slashes
stat_path v path = walk_path v (skip_slashes path)

-- gt2_vol_find_path
unfoldable pub find_path : Vol → List ℕ → Outcome VolStatus (ℕ × ℕ)
find_path v path = do
  e ← stat_path v path
  guard (not (has_dir e.flags)) is_dir
  file_range v e.next

-- gt2_vol_read_path
unfoldable pub read_path : Vol → List ℕ → Bool → Outcome VolStatus (Bytes × ℕ)
unfolding read_range
read_path v path granted = do range ← find_path v path; read_range v granted range

-- The visiting loop of gt2_vol_list_dir: the entries visited, in order, and the status.
unfoldable pub list_from : List Slot → ℕ → List Entry × Outcome VolStatus (Unit {0})
list_from [] i = ([], err truncated)
list_from (s ∷ rest) i =
    let (es, st) = list_from rest (i + 1) in
    if has_end s.flags then (entry_of i s ∷ [], ok tt) else (entry_of i s ∷ es, st)

-- "" and "/" name the root
unfoldable pub is_root : List ℕ → Bool
is_root [] = true
is_root (c ∷ []) = c == slash
is_root (c ∷ d ∷ rest) = false

listing_start : Vol → List ℕ → Outcome VolStatus ℕ
listing_start v path = do e ← stat_path v path; guard (has_dir e.flags) is_dir; ok e.next

-- gt2_vol_list_dir
unfoldable pub list_dir : Vol → List ℕ → List Entry × Outcome VolStatus (Unit {0})
unfolding list_from is_root listing_start
list_dir v path = if is_root path then list_from v.slots 0 else elim (listing_start v path) [
  | err e ↦ ([], err e)
  | ok cur ↦ list_from (drop cur v.slots) cur
]

-- gt2_vol_span
unfoldable pub span : Vol → List ℕ → List ℕ → Outcome VolStatus ℕ
span v first last = do
  a ← stat_path v first
  b ← stat_path v last
  ok (sub32 (sub32 b.next a.next) 1)
