-- ===== src/Car/Tables.antt =====
-- The wheel, engine and logo tables of decomp/src/car/car.c.
pub mod LogoEnds
pub mod LogoWalk
pub mod NamedLogos
pub mod Logos
use gt2_recomp.Prelude.{
  ℕ, zero, suc, ◌+◌, ◌*◌, ◌/◌, ◌%◌, ◌-◌, ◌^◌, Bool, true, false, ◌&&◌, ◌||◌, not, Option, none,
  some, List, [], ◌∷◌, ltb, leb, ◌==◌, if◌then◌else◌, bit_or, Outcome, ok, err, ◌>>=◌, guard, ◌>>◌,
  get_or, take, length,
}
use gt2_recomp.Bytes.{Bytes, u8, u16, u32, sub32}
use gt2_recomp.Vol.{Vol, VolStatus}
use gt2_recomp.Vol.Walk.{Entry, has_end, list_dir}
use gt2_recomp.Car.{
  CarEntry, CarStatus, inval, nospace, not_found, truncated, listing_cap, map_listing, skip_dirs,
  namehash, find, engine_parse,
}

-- the maker search of gt2_wheel_codec from entry `i` on, with `n` entries left and the index so far
unfoldable pub maker_from : ℕ → Bytes → ℕ → ℕ → ℕ → ℕ → ℕ
maker_from zero makers c0 c1 i idx = idx
maker_from (suc n) makers c0 c1 i idx =
    let m0 = makers (2 * i) in
    let m1 = makers (2 * i + 1) in
    let rest = maker_from n makers c0 c1 (i + 1) (i + 1) in
    if m0 == 0 && m1 == 0 then idx else if c0 == m0 && c1 == m1 then i else rest

-- the maker index of a name; `none` is a NULL table
unfoldable pub maker_index : Option Bytes → ℕ → ℕ → ℕ → ℕ
maker_index none nmakers c0 c1 = nmakers
maker_index (some makers) nmakers c0 c1 =
    if ltb 0 nmakers && not (makers 0 == 0 && makers 1 == 0)
    then maker_from nmakers makers c0 c1 0 nmakers
    else 0

-- a signed char, as the u32 that it converts to
abbrev pub s8_word : ℕ → ℕ
s8_word c = if ltb c 0x80 then c else c + 2 ^ 32 - 0x100

-- the class digit
unfoldable pub wheel_class : ℕ → ℕ
wheel_class c = if c == 0x35 then 2 else if c == 0x34 then 1 else if c == 0x36 then 3 else 0

-- gt2_wheel_codec
unfoldable pub wheel_codec : Option Bytes → ℕ → List ℕ → ℕ
wheel_codec makers nmakers name =
    let n : ℕ → ℕ = λ i. get_or name i 0 in
    let idx = maker_index makers nmakers (n 0) (n 1) in
    let d2 = sub32 (s8_word (n 2)) 0x30 in
    let d3 = sub32 (s8_word (n 3)) 0x30 in
    let num = u32 (sub32 (u32 (100 * d2 + 10 * d3)) 0x30 + s8_word (n 4)) in
    let a3 = bit_or (u32 (bit_or (u32 (idx * 2 ^ 12)) num * 2 ^ 3)) (wheel_class (n 6)) in
    bit_or (u32 (a3 * 2 ^ 13)) (n 7)

-- the files of a directory, for a build that stores at most `limit` entries
unfoldable pub files_of : Vol → List ℕ → ℕ → Bool → Outcome CarStatus (List Entry)
files_of v path limit granted = do
  guard (not (limit == 0)) inval
  guard granted nospace
  elim (list_dir v path).1 [
    | err e ↦ err (map_listing e)
    | ok done ↦ (do
      let files = skip_dirs (take listing_cap (list_dir v path).0)
      guard (not (length files == 0)) truncated
      ok files)
  ]

-- the loop of gt2_wheel_build with `n` codes stored before
unfoldable pub wheel_from : Option Bytes → ℕ → ℕ → ℕ → List Entry → Outcome CarStatus (List ℕ)
wheel_from makers nmakers limit n [] = ok []
wheel_from makers nmakers limit n (e ∷ es) =
    let rest = wheel_from makers nmakers limit (n + 1) es in
    let code = wheel_codec makers nmakers e.name in
    if leb limit n
    then err nospace
    else if has_end e.flags
    then ok (code ∷ [])
    else (do more ← rest; ok (code ∷ more))

-- "/carwheel"
abbrev pub carwheel : List ℕ
carwheel = b'/' ∷ b'c' ∷ b'a' ∷ b'r' ∷ b'w' ∷ b'h' ∷ b'e' ∷ b'e' ∷ b'l' ∷ []

-- gt2_wheel_build
unfoldable pub wheel_build : Vol → Option Bytes → ℕ → ℕ → Bool → Outcome CarStatus (List ℕ)
wheel_build v makers nmakers limit granted = do
  files ← files_of v carwheel limit granted
  wheel_from makers nmakers limit 0 files

-- a name that does not start below ':'
abbrev pub not_digit : List ℕ → Bool
not_digit name = leb 0x3A (get_or name 0 0)

-- what follows the nine entries of a round: whether the walk goes on
unfoldable pub engine_goes_on : List Entry → Bool
engine_goes_on [] = false
engine_goes_on (e ∷ es) = not (not_digit e.name)

-- the stride-9 loop of gt2_engine_build with `n` numbers stored before
unfoldable pub engine_from : ℕ → ℕ → List Entry → Outcome CarStatus (List ℕ)
engine_from limit n [] = ok []
engine_from limit n (e ∷ a ∷ b ∷ c ∷ d ∷ f ∷ g ∷ h ∷ last ∷ rest) =
    let next = engine_from limit (n + 1) rest in
    let number = u16 (engine_parse e.name) in
    if leb limit n
    then err nospace
    else if has_end last.flags || not (engine_goes_on rest)
    then ok (number ∷ [])
    else (do more ← next; ok (number ∷ more))
engine_from limit n (e ∷ short) =
    if leb limit n then err nospace else ok (u16 (engine_parse e.name) ∷ [])

-- "/engine"
abbrev pub engine_path : List ℕ
engine_path = b'/' ∷ b'e' ∷ b'n' ∷ b'g' ∷ b'i' ∷ b'n' ∷ b'e' ∷ []

-- nothing is stored if the first name does not start with a digit
unfoldable pub engine_files : ℕ → List Entry → Outcome CarStatus (List ℕ)
engine_files limit [] = ok []
engine_files limit (e ∷ es) = if not_digit e.name then ok [] else engine_from limit 0 (e ∷ es)

-- gt2_engine_build
unfoldable pub engine_build : Vol → ℕ → Bool → Outcome CarStatus (List ℕ)
engine_build v limit granted = do
  files ← files_of v engine_path limit granted
  engine_files limit files

-- tab[k].z = z
abbrev pub set_z : (ℕ → CarEntry) → ℕ → ℕ → ℕ → CarEntry
set_z tab k z j =
    if j == k then record { hash = (tab j).hash; index = (tab j).index; z = z } else tab j

-- the name filter: 'p' or 'q' at byte 5
unfoldable pub logo_skipped : List ℕ → Bool
logo_skipped name = ltb 5 (length name) && (get_or name 5 0 == 0x70 || get_or name 5 0 == 0x71)

-- tab[k].z of the entry that was found
unfoldable pub logo_hit : Entry → (ℕ → CarEntry) × ℕ → Option ℕ → (ℕ → CarEntry) × ℕ
logo_hit e (tab, hits) none = (tab, hits)
logo_hit e (tab, hits) (some k) = (set_z tab k (u16 e.next), hits + 1)

-- one logo: the table and the number of hits; `none` is a search that does not end
unfoldable pub logo_round : Bytes → ℕ → Entry → (ℕ → CarEntry) × ℕ → Option ((ℕ → CarEntry) × ℕ)
unfolding logo_hit
logo_round weights count e (tab, hits) =
    if logo_skipped e.name
    then some (tab, hits)
    else elim (find tab count (namehash weights e.name)) [
      | none ↦ none
      | some o ↦ some (logo_hit e (tab, hits) o)
    ]

-- what a call leaves: its status with the number of hits, and the table
abbrev pub Annotation : Type 0
Annotation = Outcome CarStatus ℕ × (ℕ → CarEntry)

-- the pair walk
unfoldable pub logo_walk : Bytes → ℕ → List Entry → (ℕ → CarEntry) × ℕ → Option Annotation
logo_walk weights count [] (tab, hits) = some (ok hits, tab)
logo_walk weights count (e ∷ []) (tab, hits) = some (err truncated, tab)
logo_walk weights count (e ∷ f ∷ rest) (tab, hits) = elim (logo_round weights count e (tab, hits)) [
  | none ↦ none
  | some done ↦
      let next = logo_walk weights count rest done in
      if has_end f.flags then some (ok done.1, done.0) else next
]

-- the backfill of the first `count` entries
abbrev pub backfill : ℕ → ℕ → (ℕ → CarEntry) → ℕ → CarEntry
backfill count dflt tab j =
    if ltb j count && (tab j).z == 0
    then record { hash = (tab j).hash; index = (tab j).index; z = dflt }
    else tab j

abbrev pub backfilled : ℕ → ℕ → Annotation → Annotation
backfilled count dflt (err st, tab) = (err st, tab)
backfilled count dflt (ok hits, tab) = (ok hits, backfill count dflt tab)

-- the walk and the backfill over the files of the directory
unfoldable pub logo_files : Bytes → ℕ → List Entry → (ℕ → CarEntry) → Option Annotation
logo_files weights count [] tab = some (err truncated, tab)
logo_files weights count (e ∷ es) tab = elim (logo_walk weights count (e ∷ es) (tab, 0)) [
  | none ↦ none
  | some walked ↦ some (backfilled count (u16 e.next) walked)
]

-- "/carlogo"
abbrev pub carlogo : List ℕ
carlogo = b'/' ∷ b'c' ∷ b'a' ∷ b'r' ∷ b'l' ∷ b'o' ∷ b'g' ∷ b'o' ∷ []

-- gt2_car_logo_annotate: the status with the number of hits, and the table as the call leaves it;
-- `none` if one of its searches does not end
unfoldable pub logo_annotate : Vol → Bytes → (ℕ → CarEntry) → ℕ → Bool → Option Annotation
logo_annotate v weights tab count granted =
    if count == 0
    then some (err inval, tab)
    else if not granted
    then some (err nospace, tab)
    else elim (list_dir v carlogo).1 [
      | err e ↦ some (err (map_listing e), tab)
      | ok done ↦ logo_files weights count (skip_dirs (take listing_cap (list_dir v carlogo).0)) tab
    ]
