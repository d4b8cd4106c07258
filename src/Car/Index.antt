-- ===== src/Car/Index.antt =====
-- The whole of gt2_car_index_build: the table with its sentinel, of a directory of a volume.
use gt2_recomp.Prelude.{
  ℕ, ◌+◌, ◌-◌, ◌<◌, ◌≤◌, ◌≡◌, refl, sym, ap, Bool, true, false, not, some, List, [], ◌∷◌, ◌++◌,
  Outcome, ok, err, ◌>>=◌, guard, arith, ltb, ◌==◌, get_elem?, length, take, >>=-eq-ok,
  ok-injective,
}
use gt2_recomp.Bytes.{Bytes}
use gt2_recomp.Vol.Walk.{Entry}
use gt2_recomp.Vol.{Vol, VolStatus}
use gt2_recomp.Vol.Walk.{list_dir}
use gt2_recomp.Car.{
  CarEntry, nospace, inval, stride, sealed, last_index, skip_dirs, listing_cap, index_of_listing,
  of_status, index_build,
}
use gt2_recomp.Bytes.{u16}
use gt2_recomp.Car.Build.{Strided, stride-Strided}

-- the table ends in the sentinel, whose index is four past the last entry's
pub record Indexed (weights : Bytes) (limit : ℕ) (l : List Entry) (tab : List CarEntry) (count : ℕ)
    : Type 0 where
  pub entries : List CarEntry
  pub strided : Strided weights l entries
  pub counted : count ≡ length entries
  pub fits : count + 1 ≤ limit
  pub last_index : ℕ
  pub last : (e : CarEntry) → get_elem? entries (count - 1) ≡ some e → e.index ≡ last_index
  pub table : tab ≡ entries ++ (record { hash = 0; index = u16 (last_index + 4); z = 0 } ∷ [])

last_index_at :
    (e : CarEntry) (es : List CarEntry) (d : CarEntry)
    → get_elem? (e ∷ es) (length es) ≡ some d
    → d.index ≡ last_index e es
unfolding last_index
last_index_at e [] d h = let same : e ≡ d = cc in rw same refl
last_index_at e (f ∷ es) d h = last_index_at f es d h

sealed-Indexed :
    (weights : Bytes) (limit : ℕ) (l : List Entry) (es tab : List CarEntry) (count : ℕ)
    → Strided weights l es
    → 0 + length es < limit
    → sealed limit es ≡ ok (tab, count)
    → Indexed weights limit l tab count
unfolding sealed
sealed-Indexed weights limit l [] tab count s fits h = absurd (omega (arith, s.nonempty))
sealed-Indexed weights limit l (e ∷ es) tab count s fits h =
    let room : ltb (length (e ∷ es)) limit ≡ true = ground arith in
    let pair = ok-injective (rw room at h) in
    let size : length (e ∷ es) ≡ count = ap (λ (p : List CarEntry × ℕ). p.1) pair in
    let shown = ap (λ (p : List CarEntry × ℕ). p.0) pair in
    record {
      entries = e ∷ es;
      strided = s;
      counted = sym size;
      fits = omega arith;
      last_index = last_index e es;
      last =
          λ d at. let k : count - 1 ≡ length es = omega arith in last_index_at e es d (rw k at at);
      table = sym shown;
    }

index_of_listing-Indexed :
    (weights : Bytes) (limit : ℕ) (l tab_listing : List Entry) (tab : List CarEntry) (count : ℕ)
    → l ≡ skip_dirs (take listing_cap tab_listing)
    → index_of_listing weights limit tab_listing ≡ ok (tab, count)
    → Indexed weights limit l tab count
unfolding index_of_listing
index_of_listing-Indexed weights limit [] listing tab count e h = cc (rw (← e) at h)
index_of_listing-Indexed weights limit (f ∷ rest) listing tab count e h =
    let some_left : (length (f ∷ rest) == 0) ≡ false = ground arith in
    let h' : (stride weights limit 0 (f ∷ rest) >>= sealed limit) ≡ ok (tab, count) =
      rw (← e, some_left) at h in
    let (es, r, closed) = >>=-eq-ok (stride weights limit 0 (f ∷ rest)) (sealed limit) h' in
    let (s, fits) = stride-Strided weights limit 0 f rest es r in
    sealed-Indexed weights limit (f ∷ rest) es tab count s fits closed

of_status-ok :
    (weights : Bytes) (limit : ℕ) (listing : List Entry) (st : Outcome VolStatus (Unit {0}))
    (out : List CarEntry × ℕ)
    → of_status weights limit listing st ≡ ok out
    → (st ≡ ok tt) × (index_of_listing weights limit listing ≡ ok out)
unfolding of_status
of_status-ok weights limit listing (ok done) out h = (refl, h)
of_status-ok weights limit listing (err e) out h = cc

-- When gt2_car_index_build succeeds, the directory was listed whole, and the table holds, hashed, every
-- fourth entry from the first that is not a leading directory among the 12288 first, up to the one that
-- the end of the listing follows within three; then comes the sentinel, and all fits the capacity.
pub index_build-Indexed :
    (v : Vol) (dir : List ℕ) (weights : Bytes) (limit : ℕ) (granted : Bool) (tab : List CarEntry)
    (count : ℕ)
    → index_build v dir weights limit granted ≡ ok (tab, count)
    → ((list_dir v dir).1 ≡ ok tt)
      × Indexed weights limit (skip_dirs (take listing_cap (list_dir v dir).0)) tab count
unfolding index_build
index_build-Indexed v dir weights limit granted tab count h =
    let (u, some_room, rest) = >>=-eq-ok (guard (not (limit == 0)) inval) _ h in
    let (w, memory, built) = >>=-eq-ok (guard granted nospace) _ rest in
    let (listed, made) =
      of_status-ok weights limit (list_dir v dir).0 (list_dir v dir).1 (tab, count) built in
    (listed, index_of_listing-Indexed weights limit _ (list_dir v dir).0 tab count refl made)
