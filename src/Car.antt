-- ===== src/Car.antt =====
-- The car index, decomp/src/car/car.c: the name hash with its weight table, the build of the index
-- from a directory listing, the binary search, and the decimal prefix of engine names.
pub mod Search
pub mod Hash
pub mod Weights
pub mod Engine
pub mod Build
pub mod Index
pub mod Tables
use gt2_recomp.Prelude.{
  ℕ, zero, suc, ◌+◌, ◌*◌, ◌/◌, ◌%◌, ◌-◌, ◌^◌, Bool, true, false, ◌&&◌, not, Option, none, some,
  List, [], ◌∷◌, ltb, leb, ◌==◌, if◌then◌else◌, bit_or, Outcome, ok, err, ◌>>=◌, guard, ◌>>◌,
  get_or, get_elem?, take, length, ◌++◌,
}
use gt2_recomp.Bytes.{Bytes, zeros, write, u8, u16, u32}
use gt2_recomp.Vol.{Vol, VolStatus, not_found as vol_not_found}
use gt2_recomp.Vol.Walk.{Entry, has_end, list_dir}

-- gt2_car_entry_t
pub record CarEntry : Type 0 where
  pub hash : ℕ
  pub index : ℕ
  pub z : ℕ

-- `(lo + hi) >> 1` on u32
unfoldable pub midpoint : ℕ → ℕ → ℕ
midpoint lo hi = u32 (lo + hi) / 2

-- The loop of gt2_car_find, at most as many rounds as the fuel: `none` is a loop that has not ended,
-- `some none` is -1.
unfoldable pub find_loop : ℕ → (ℕ → CarEntry) → ℕ → ℕ → ℕ → ℕ → Option (Option ℕ)
unfolding midpoint
find_loop zero tab count hash lo hi = none
find_loop (suc fuel) tab count hash lo hi =
    let mid = midpoint lo hi in
    let low = leb hash (tab mid).hash in
    let rest =
      find_loop fuel tab count hash (if low then lo else mid + 1) (if low then mid else hi) in
    if leb count mid
    then some none
    else if hash == (tab mid).hash
    then some (some mid)
    else if not (ltb lo hi)
    then some none
    else rest

-- gt2_car_find, with one round more than entries
unfoldable pub find : (ℕ → CarEntry) → ℕ → ℕ → Option (Option ℕ)
unfolding find_loop
find tab count hash = if count == 0 then some none else find_loop (count + 1) tab count hash 0 count

-- gt2_namehash. The five weights are bytes, so no shift leaves 32 bits.
unfoldable pub namehash : Bytes → List ℕ → ℕ
namehash weights name =
    let w : ℕ → ℕ = λ i. weights (get_or name i 0) in
    bit_or (bit_or (bit_or (bit_or (w 4) (w 3 * 2 ^ 6)) (w 2 * 2 ^ 12)) (w 1 * 2 ^ 18))
      (w 0 * 2 ^ 24)

abbrev pub is_lower : ℕ → Bool
is_lower c = leb 0x61 c && leb c 0x7A

-- one character of the loop of gt2_weight_init
unfoldable pub put_weight : Bytes → ℕ → ℕ → Bytes
put_weight weights i c =
    let set = write weights c (u8 i) in if is_lower c then write set (c - 0x20) (u8 i) else set

unfoldable pub weights_from : Bytes → ℕ → List ℕ → Bytes
unfolding put_weight
weights_from weights i [] = weights
weights_from weights i (c ∷ cs) = weights_from (put_weight weights i c) (i + 1) cs

-- gt2_weight_init
unfoldable pub weight_init : List ℕ → Bytes
unfolding weights_from
weight_init charset = weights_from zeros 0 charset

abbrev pub is_digit : ℕ → Bool
is_digit c = leb 0x30 c && ltb c 0x3A

-- the loop of gt2_engine_parse
unfoldable pub parse_digits : ℕ → List ℕ → ℕ
parse_digits v [] = v
parse_digits v (c ∷ cs) =
    let rest = parse_digits (u32 (v * 10 + (c - 0x30))) cs in if is_digit c then rest else v

-- gt2_engine_parse
unfoldable pub engine_parse : List ℕ → ℕ
unfolding parse_digits
engine_parse name = parse_digits 0 name

-- gt2_car_status_t without its OK
pub data CarStatus : Type 0 where
  inval nospace not_found truncated : CarStatus

abbrev pub listing_cap : ℕ
listing_cap = 12288

unfoldable pub map_listing : VolStatus → CarStatus
map_listing vol_not_found = not_found
map_listing e = inval

-- the skip phase: leading directories
unfoldable pub skip_dirs : List Entry → List Entry
skip_dirs [] = []
skip_dirs (e ∷ es) = let rest = skip_dirs es in if e.flags % 4 == 1 then rest else e ∷ es

unfoldable pub car_entry : Bytes → Entry → CarEntry
car_entry weights e = record { hash = namehash weights e.name; index = u16 e.next; z = 0 }

-- The stride loop over `listing[i..]` with `n` entries written: the entries that it writes from there.
unfoldable pub stride : Bytes → ℕ → ℕ → List Entry → Outcome CarStatus (List CarEntry)
unfolding car_entry
stride weights limit n [] = ok []
stride weights limit n (e ∷ a ∷ b ∷ c ∷ rest) =
    let next = stride weights limit (n + 1) rest in
    if leb limit (n + 1)
    then err nospace
    else if has_end c.flags
    then ok (car_entry weights e ∷ [])
    else (do more ← next; ok (car_entry weights e ∷ more))
stride weights limit n (e ∷ short) =
    if leb limit (n + 1) then err nospace else ok (car_entry weights e ∷ [])

last_index : CarEntry → List CarEntry → ℕ
last_index e [] = e.index
last_index e (f ∷ fs) = last_index f fs

-- the entries, their number, and the sentinel's index: 4 past the last one's
sealed : ℕ → List CarEntry → Outcome CarStatus (List CarEntry × ℕ)
sealed limit [] = ok ([], 0)
sealed limit (e ∷ es) = do
  guard (ltb (length (e ∷ es)) limit) nospace
  ok (
    (e ∷ es) ++ (record { hash = 0; index = u16 (last_index e es + 4); z = 0 } ∷ []),
    length (e ∷ es),
  )

-- gt2_car_index_build over the listing that gt2_vol_list_dir visited
unfoldable pub index_of_listing : Bytes → ℕ → List Entry → Outcome CarStatus (List CarEntry × ℕ)
unfolding stride skip_dirs sealed last_index
index_of_listing weights limit listing = do
  guard (not (length (skip_dirs (take listing_cap listing)) == 0)) truncated
  entries ← stride weights limit 0 (skip_dirs (take listing_cap listing))
  sealed limit entries

of_status :
    Bytes → ℕ → List Entry → Outcome VolStatus (Unit {0}) → Outcome CarStatus (List CarEntry × ℕ)
of_status weights limit listing (err e) = err (map_listing e)
of_status weights limit listing (ok done) = index_of_listing weights limit listing

-- gt2_car_index_build: the table with its sentinel, and the count. `granted` says whether malloc
-- succeeds.
unfoldable pub index_build : Vol → List ℕ → Bytes → ℕ → Bool → Outcome CarStatus (List CarEntry × ℕ)
unfolding index_of_listing of_status map_listing
index_build v dir weights limit granted = do
  guard (not (limit == 0)) inval
  guard granted nospace
  of_status weights limit (list_dir v dir).0 (list_dir v dir).1
