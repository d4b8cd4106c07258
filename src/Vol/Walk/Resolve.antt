-- ===== src/Vol/Walk/Resolve.antt =====
-- gt2_vol_stat_path against a relation that says which entry a path names.
use gt2_recomp.Prelude.{
  ℕ, ◌<◌, ◌≡◌, refl, true, List, [], ◌∷◌, ok, guard, length, drop, arith, lt→ltb, >>=-eq-ok,
  guard-eq-ok,
}
use gt2_recomp.Vol.{Vol, inval}
use gt2_recomp.Vol.Walk.{Entry, component_ok, descend, lookup_component, has_dir, walk}
use gt2_recomp.Vol.Walk.Scan.{Listed, scan-Listed, Listed-scan}

-- The component is legal, and names `e` in the listing that starts at slot `cur`.
pub record InListing (v : Vol) (cur : ℕ) (comp : List ℕ) (e : Entry) : Type 0 where
  pub legal : component_ok comp ≡ true
  pub listed : Listed comp (drop cur v.slots) cur e

-- The components, from the listing at `cur`, name the entry: each but the last is a directory whose
-- child listing lies in the table.
pub data Resolves (v : Vol) : ℕ → List ℕ → List (List ℕ) → Entry → Type 0 where
  last : {cur : ℕ} {comp : List ℕ} {e : Entry} → InListing v cur comp e → Resolves v cur comp [] e
  into :
      {cur : ℕ} {comp next : List ℕ} {more : List (List ℕ)} {e : Entry} (d : Entry)
      → InListing v cur comp d
      → has_dir d.flags ≡ true
      → d.next < length v.slots
      → Resolves v d.next next more e
      → Resolves v cur comp (next ∷ more) e

lookup_component-InListing :
    (v : Vol) (cur : ℕ) (comp : List ℕ) (e : Entry)
    → lookup_component v cur comp ≡ ok e
    → InListing v cur comp e
unfolding lookup_component
lookup_component-InListing v cur comp e h =
    let (u, g, s) = >>=-eq-ok (guard (component_ok comp) inval) _ h in
    record {
      legal = guard-eq-ok (component_ok comp) inval g;
      listed = scan-Listed comp (drop cur v.slots) cur e s;
    }

InListing-lookup_component :
    (v : Vol) (cur : ℕ) (comp : List ℕ) (e : Entry)
    → InListing v cur comp e
    → lookup_component v cur comp ≡ ok e
unfolding lookup_component
InListing-lookup_component v cur comp e l =
    rw l.legal (Listed-scan comp (drop cur v.slots) cur e l.listed)

descend-ok :
    (v : Vol) (d : Entry) (c : ℕ)
    → descend v d ≡ ok c
    → (has_dir d.flags ≡ true) × (d.next < length v.slots) × (c ≡ d.next)
unfolding descend
descend-ok v d c h = ground arith

ok-descend :
    (v : Vol) (d : Entry)
    → has_dir d.flags ≡ true
    → d.next < length v.slots
    → descend v d ≡ ok d.next
unfolding descend
ok-descend v d h l = rw (h, lt→ltb d.next (length v.slots) l) refl

pub walk-Resolves :
    (v : Vol) (cur : ℕ) (comp : List ℕ) (more : List (List ℕ)) (e : Entry)
    → walk v cur comp more ≡ ok e
    → Resolves v cur comp more e
unfolding walk
walk-Resolves v cur comp [] e h = last (lookup_component-InListing v cur comp e h)
walk-Resolves v cur comp (next ∷ more) e h =
    let (d, l, rest) = >>=-eq-ok (lookup_component v cur comp) _ h in
    let (c, q, s) = >>=-eq-ok (descend v d) _ rest in
    let (dir, fits, same) = descend-ok v d c q in
    into d (lookup_component-InListing v cur comp d l) dir fits
      (walk-Resolves v d.next next more e (rw same at s))

pub Resolves-walk :
    (v : Vol) (cur : ℕ) (comp : List ℕ) (more : List (List ℕ)) (e : Entry)
    → Resolves v cur comp more e
    → walk v cur comp more ≡ ok e
unfolding walk
Resolves-walk v cur comp more e (last l) = InListing-lookup_component v cur comp e l
Resolves-walk v cur comp (next ∷ more) e (into d l dir fits r) =
    rw (InListing-lookup_component v cur comp d l, ok-descend v d dir fits)
      (Resolves-walk v d.next next more e r)
