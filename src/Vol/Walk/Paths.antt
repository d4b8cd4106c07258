-- ===== src/Vol/Walk/Paths.antt =====
-- How gt2_vol_stat_path cuts a path, and the theorem about whole paths.
use gt2_recomp.Prelude.{
  ℕ, zero, suc, ◌≡◌, ◌≢◌, ◌↔◌, refl, sym, ap, ◌∙◌, true, false, List, [], ◌∷◌, ◌++◌, ok, err, arith,
  All, ◌==◌, Bool-cases, inl, inr, ==→eq, ==→ne,
}
use gt2_recomp.Vol.{Vol, inval}
use gt2_recomp.Vol.Walk.{
  Entry, slash, skip_slashes, components, component_ok, walk, walk_path, walk_all, stat_path,
}
use gt2_recomp.Vol.Walk.Resolve.{Resolves, last, into, walk-Resolves, Resolves-walk}

abbrev pub SlashFree : List ℕ → Type 0
SlashFree w = All (λ c. c ≢ slash) w

-- the components with a slash between each two
unfoldable pub join : List ℕ → List (List ℕ) → List ℕ
join w [] = w
join w (next ∷ more) = w ++ (slash ∷ join next more)

-- `n` slashes in front
unfoldable pub slashes : ℕ → List ℕ → List ℕ
slashes zero p = p
slashes (suc n) p = slash ∷ slashes n p

-- The path spells components, each free of slashes, that name the entry from the root listing.
pub record Names (v : Vol) (path : List ℕ) (e : Entry) : Type 0 where
  pub lead : ℕ
  pub first : List ℕ
  pub more : List (List ℕ)
  pub spelled : path ≡ slashes lead (join first more)
  pub first_free : SlashFree first
  pub more_free : All SlashFree more
  pub resolves : Resolves v 0 first more e

join-cons : (c : ℕ) (w : List ℕ) (more : List (List ℕ)) → join (c ∷ w) more ≡ c ∷ join w more
unfolding join
join-cons c w [] = refl
join-cons c w (n ∷ ns) = refl

components-slash : (p : List ℕ) → components (slash ∷ p) ≡ [] ∷ components p
unfolding components
components-slash p = refl

components-cons :
    (c : ℕ) (p w : List ℕ) (ws : List (List ℕ))
    → c ≢ slash
    → components p ≡ w ∷ ws
    → components (c ∷ p) ≡ (c ∷ w) ∷ ws
unfolding components
components-cons c p w ws h e = let t : (c == slash) ≡ false = ground arith in rw (t, e) refl

components-join :
    (more : List (List ℕ)) (w : List ℕ)
    → SlashFree w
    → All SlashFree more
    → components (join w more) ≡ w ∷ more
unfolding join
components-join [] [] f g = unfold components in refl
components-join (n ∷ ns) [] f g =
    components-slash (join n ns) ∙ ap (λ ws. [] ∷ ws) (components-join ns n g.0 g.1)
components-join more (c ∷ w) f g =
    rw join-cons (components-cons c (join w more) w more f.0 (components-join more w f.1 g))

pub record Cut (p : List ℕ) : Type 0 where
  first : List ℕ
  more : List (List ℕ)
  cut : components p ≡ first ∷ more
  joined : join first more ≡ p
  first_free : SlashFree first
  more_free : All SlashFree more

components-Cut : (p : List ℕ) → Cut p
unfolding components join
components-Cut [] = record {
  first = [];
  more = [];
  cut = refl;
  joined = refl;
  first_free = tt;
  more_free = tt;
}
components-Cut (c ∷ p) =
    let r = components-Cut p in
    elim (Bool-cases (c == slash)) [
      | inl s ↦
          let e : c ≡ slash = ==→eq c slash s in
          record {
            first = [];
            more = r.first ∷ r.more;
            cut = rw (s, r.cut) refl;
            joined = rw (e, r.joined) refl;
            first_free = tt;
            more_free = (r.first_free, r.more_free);
          }
      | inr o ↦ record {
        first = c ∷ r.first;
        more = r.more;
        cut = components-cons c p r.first r.more (==→ne c slash o) r.cut;
        joined = join-cons c r.first r.more ∙ ap (λ q. c ∷ q) r.joined;
        first_free = (==→ne c slash o, r.first_free);
        more_free = r.more_free;
      }
    ]

skip-slashes : (n : ℕ) (p : List ℕ) → skip_slashes (slashes n p) ≡ skip_slashes p
unfolding slashes skip_slashes
skip-slashes zero p = refl
skip-slashes (suc n) p = skip-slashes n p

skip-free : (c : ℕ) (p : List ℕ) → c ≢ slash → skip_slashes (c ∷ p) ≡ c ∷ p
unfolding skip_slashes
skip-free c p h = let t : (c == slash) ≡ false = ground arith in rw t refl

slashes-skip : (p : List ℕ) → (n : ℕ) × (p ≡ slashes n (skip_slashes p))
unfolding slashes skip_slashes
slashes-skip [] = (0, refl)
slashes-skip (c ∷ p) =
    let r = slashes-skip p in
    elim (Bool-cases (c == slash)) [
      | inl s ↦ (suc r.0, let e : c ≡ slash = ==→eq c slash s in rw s (cc (e, r.1)))
      | inr o ↦ (0, rw o refl)
    ]

stat_path-eq-walk :
    (v : Vol) (path : List ℕ) (c : ℕ) (cs first : List ℕ) (more : List (List ℕ))
    → skip_slashes path ≡ c ∷ cs
    → components (c ∷ cs) ≡ first ∷ more
    → stat_path v path ≡ walk v 0 first more
unfolding stat_path walk_path walk_all
stat_path-eq-walk v path c cs first more s k = rw (s, k) refl

stat_path-nil : (v : Vol) (path : List ℕ) → skip_slashes path ≡ [] → stat_path v path ≡ err inval
unfolding stat_path walk_path
stat_path-nil v path s = rw s refl

named_by :
    (v : Vol) (path : List ℕ) (p : List ℕ)
    → skip_slashes path ≡ p
    → (e : Entry) → stat_path v path ≡ ok e
    → Names v path e
named_by v path [] s e h = cc (h, stat_path-nil v path s)
named_by v path (c ∷ cs) s e h =
    let r = components-Cut (c ∷ cs) in
    let (n, back) = slashes-skip path in
    record {
      lead = n;
      first = r.first;
      more = r.more;
      spelled = back ∙ ap (slashes n) (s ∙ sym r.joined);
      first_free = r.first_free;
      more_free = r.more_free;
      resolves =
          walk-Resolves v 0 r.first r.more e
            (sym (stat_path-eq-walk v path c cs r.first r.more s r.cut) ∙ h);
    }

first_legal :
    {v : Vol} {first : List ℕ} {more : List (List ℕ)} {e : Entry}
    → Resolves v 0 first more e
    → component_ok first ≡ true
first_legal (last l) = l.legal
first_legal (into d l dir fits r) = l.legal

-- a legal first component leaves nothing for the slash skipper
stat_named :
    (v : Vol) (path first : List ℕ) (more : List (List ℕ)) (e : Entry) (n : ℕ)
    → component_ok first ≡ true
    → SlashFree first
    → All SlashFree more
    → path ≡ slashes n (join first more)
    → stat_path v path ≡ walk v 0 first more
unfolding component_ok
stat_named v path [] more e n legal f g s = cc
stat_named v path (c ∷ w) more e n legal f g s =
    stat_path-eq-walk v path c (join w more) (c ∷ w) more
      (ap skip_slashes s
        ∙ skip-slashes n (join (c ∷ w) more)
        ∙ ap skip_slashes (join-cons c w more)
        ∙ skip-free c (join w more) f.0)
      (ap components (sym (join-cons c w more)) ∙ components-join more (c ∷ w) f g)

-- gt2_vol_stat_path succeeds with an entry exactly when the path, after any leading slashes, spells
-- legal slash-free components that lead from the root listing to that entry: each component is the
-- first slot of its name in its listing, and each but the last is a directory.
pub stat_path-iff-Names :
    (v : Vol) (path : List ℕ) (e : Entry) → (stat_path v path ≡ ok e) ↔ Names v path e
stat_path-iff-Names v path e = (
  named_by v path (skip_slashes path) refl e,
  λ n.
      stat_named v path n.first n.more e n.lead (first_legal n.resolves) n.first_free n.more_free
        n.spelled
      ∙ Resolves-walk v 0 n.first n.more e n.resolves,
)
