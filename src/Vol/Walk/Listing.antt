-- ===== src/Vol/Walk/Listing.antt =====
-- gt2_vol_list_dir: which entries it visits, and that it visits whatever a path can name there.
use gt2_recomp.Prelude.{
  ℕ, zero, suc, ◌+◌, ◌<◌, ◌≡◌, refl, ◌∙◌, true, false, some, List, [], ◌∷◌, ok, err, arith,
  get_elem?, take, drop,
}
use gt2_recomp.Vol.{Vol, Slot, truncated}
use gt2_recomp.Vol.Walk.{
  Entry, entry_of, has_end, has_dir, list_from, list_dir, is_root, listing_start, stat_path,
}
use gt2_recomp.Vol.Walk.Paths.{Names, stat_path-iff-Names}

-- the slots as entries, numbered from `i`
unfoldable pub numbered : ℕ → List Slot → List Entry
numbered i [] = []
numbered i (s ∷ rest) = entry_of i s ∷ numbered (i + 1) rest

-- the first slot that ends the listing stands at position `k`
pub record EndsAt (slots : List Slot) (k : ℕ) : Type 0 where
  pub last : Slot
  pub is_at : get_elem? slots k ≡ some last
  pub ends : has_end last.flags ≡ true
  pub open_before :
      (j : ℕ) (s : Slot) → j < k → get_elem? slots j ≡ some s → has_end s.flags ≡ false

list_from_last :
    (s : Slot) (rest : List Slot) (i : ℕ)
    → has_end s.flags ≡ true
    → list_from (s ∷ rest) i ≡ (entry_of i s ∷ [], ok tt)
unfolding list_from
list_from_last s rest i h = rw h refl

list_from_more :
    (s : Slot) (rest : List Slot) (i : ℕ)
    → has_end s.flags ≡ false
    → list_from (s ∷ rest) i
      ≡ (entry_of i s ∷ (list_from rest (i + 1)).0, (list_from rest (i + 1)).1)
unfolding list_from
list_from_more s rest i h = rw h refl

list_from-ended :
    (slots : List Slot) (i k : ℕ) (last : Slot)
    → get_elem? slots k ≡ some last
    → has_end last.flags ≡ true
    → ((j : ℕ) (s : Slot) → j < k → get_elem? slots j ≡ some s → has_end s.flags ≡ false)
    → list_from slots i ≡ (numbered i (take (suc k) slots), ok tt)
unfolding numbered
list_from-ended [] i k last at e p = cc
list_from-ended (s ∷ rest) i zero last at e p =
    let same : s ≡ last = cc in list_from_last s rest i (rw same e)
list_from-ended (s ∷ rest) i (suc k) last at e p =
    list_from_more s rest i (p zero s (omega arith) refl)
    ∙ rw (list_from-ended rest (i + 1) k last at e (λ j t lt h. p (suc j) t (omega arith) h)) refl

list_from-endless :
    (slots : List Slot) (i : ℕ)
    → ((j : ℕ) (s : Slot) → get_elem? slots j ≡ some s → has_end s.flags ≡ false)
    → list_from slots i ≡ (numbered i slots, err truncated)
unfolding numbered
list_from-endless [] i p = unfold list_from in refl
list_from-endless (s ∷ rest) i p =
    list_from_more s rest i (p zero s refl)
    ∙ rw (list_from-endless rest (i + 1) (λ j t h. p (suc j) t h)) refl

list_dir-start :
    (v : Vol) (path : List ℕ) (e : Entry)
    → is_root path ≡ false
    → stat_path v path ≡ ok e
    → has_dir e.flags ≡ true
    → list_dir v path ≡ list_from (drop e.next v.slots) e.next
unfolding list_dir listing_start
list_dir-start v path e r s d = rw (r, s, d) refl

-- A path other than the root that names a directory is listed: gt2_vol_list_dir visits the slots of
-- the child listing in table order, up to the first one that ends it, and succeeds.
pub list_dir-Names :
    (v : Vol) (path : List ℕ) (e : Entry) (k : ℕ)
    → is_root path ≡ false
    → Names v path e
    → has_dir e.flags ≡ true
    → EndsAt (drop e.next v.slots) k
    → list_dir v path ≡ (numbered e.next (take (suc k) (drop e.next v.slots)), ok tt)
list_dir-Names v path e k r n d end =
    list_dir-start v path e r ((stat_path-iff-Names v path e).1 n) d
    ∙ list_from-ended (drop e.next v.slots) e.next k end.last end.is_at end.ends end.open_before

-- A child listing that no slot ends is visited to the end of the table, and reported as truncated.
pub list_dir-truncated :
    (v : Vol) (path : List ℕ) (e : Entry)
    → is_root path ≡ false
    → Names v path e
    → has_dir e.flags ≡ true
    → ((j : ℕ) (s : Slot) → get_elem? (drop e.next v.slots) j ≡ some s → has_end s.flags ≡ false)
    → list_dir v path ≡ (numbered e.next (drop e.next v.slots), err truncated)
list_dir-truncated v path e r n d open_end =
    list_dir-start v path e r ((stat_path-iff-Names v path e).1 n) d
    ∙ list_from-endless (drop e.next v.slots) e.next open_end
