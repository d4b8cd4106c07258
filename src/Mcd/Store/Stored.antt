-- ===== src/Mcd/Store/Stored.antt =====
-- The storing loop of gt2_mcd_write over frames that are free and blocks that are theirs.
use gt2_recomp.Prelude.{
  ℕ, zero, suc, ◌+◌, ◌*◌, ◌^◌, ◌<◌, ◌≤◌, ◌≡◌, ◌≢◌, ◌⊎◌, refl, sym, ap, ◌∙◌, true, false, List, [],
  ◌∷◌, arith, ◌==◌, inl, inr, Bool-cases, length, map,
}
use gt2_recomp.Bytes.{Bytes}
use gt2_recomp.Mcd.Store.{entry_in_use, pick_frames, chain_state, chain_next, store, store_round}
use gt2_recomp.Mcd.Store.Frame.{FrameSays, Round, store_round-Round, FrameSays-same}

-- frames from `lo` on, in order, none of them in use
pub data Free (img : Bytes) : ℕ → List ℕ → Type 0 where
  nothing : {lo : ℕ} → Free img lo []
  free :
      {lo : ℕ} {fs : List ℕ} (f : ℕ)
      → lo ≤ f
      → f < 15
      → entry_in_use img f ≡ false
      → Free img (suc f) fs
      → Free img lo (f ∷ fs)

pub pick_frames-Free :
    (n : ℕ) (img : Bytes) (i need : ℕ) → i + n ≤ 15 → Free img i (pick_frames n img i need)
unfolding pick_frames
pick_frames-Free zero img i need h = nothing
pick_frames-Free (suc n) img i zero h = nothing
pick_frames-Free (suc n) img i (suc need) h = elim (Bool-cases (entry_in_use img i)) [
  | inl busy ↦ rw busy (
      Free-from img (i + 1) i (pick_frames n img (i + 1) (suc need)) (omega arith)
        (pick_frames-Free n img (i + 1) (suc need) (omega arith)))
  | inr idle ↦
      let later =
        Free-from img (i + 1) (suc i) (pick_frames n img (i + 1) need) (omega arith)
          (pick_frames-Free n img (i + 1) need (omega arith)) in
      rw idle (free i (omega arith) (omega arith) idle later)
]
  where
    Free-from : (img : Bytes) (hi lo : ℕ) (fs : List ℕ) → lo ≤ hi → Free img hi fs → Free img lo fs
    Free-from img hi lo [] h nothing = nothing
    Free-from img hi lo (f ∷ fs) h (free _ a b c r) = free f (omega (arith, a)) b c r

-- `x` is in the frame or in the block of entry `g`
abbrev pub Within : ℕ → ℕ → Type 0
Within x g =
    (((1 + g) * 128 ≤ x) × (x < (1 + g) * 128 + 128))
    ⊎ ((suc g * 8192 ≤ x) × (x < suc g * 8192 + 8192))

-- `x` is in the frame and the block of none of the entries
pub data Apart (x : ℕ) : List ℕ → Type 0 where
  all : Apart x []
  not_in :
      {f : ℕ} {fs : List ℕ}
      → (x < (1 + f) * 128) ⊎ ((1 + f) * 128 + 128 ≤ x)
      → (x < suc f * 8192) ⊎ (suc f * 8192 + 8192 ≤ x)
      → Apart x fs
      → Apart x (f ∷ fs)

pub Apart-frame :
    (x g f : ℕ)
    → g ≢ f
    → g < 15
    → f < 15
    → Within x g
    → (x < (1 + f) * 128) ⊎ ((1 + f) * 128 + 128 ≤ x)
Apart-frame x g f ne a b (inl (lo, hi)) = omega arith
Apart-frame x g f ne a b (inr (lo, hi)) = omega arith

pub Apart-block :
    (x g f : ℕ)
    → g ≢ f
    → g < 15
    → f < 15
    → Within x g
    → (x < suc f * 8192) ⊎ (suc f * 8192 + 8192 ≤ x)
Apart-block x g f ne a b (inl (lo, hi)) = omega arith
Apart-block x g f ne a b (inr (lo, hi)) = omega arith

Apart-below :
    (img : Bytes) (lo x g : ℕ) (fs : List ℕ)
    → Free img lo fs
    → g < lo
    → g < 15
    → Within x g
    → Apart x fs
Apart-below img lo x g [] nothing h a w = all
Apart-below img lo x g (f ∷ fs) (free _ up b idle r) h a w =
    let ne : g ≢ f = λ e. omega arith in
    not_in (Apart-frame x g f ne a b w) (Apart-block x g f ne a b w)
      (Apart-below img (suc f) x g fs r (omega arith) a w)

-- an entry in use is none of the free ones
pub Apart-used :
    (img : Bytes) (lo x g : ℕ) (fs : List ℕ)
    → Free img lo fs
    → entry_in_use img g ≡ true
    → g < 15
    → Within x g
    → Apart x fs
Apart-used img lo x g [] nothing h a w = all
Apart-used img lo x g (f ∷ fs) (free _ up b idle r) h a w =
    let ne : g ≢ f = λ e. absurd (true_false (sym h ∙ ap (entry_in_use img) e ∙ idle)) in
    not_in (Apart-frame x g f ne a b w) (Apart-block x g f ne a b w)
      (Apart-used img (suc f) x g fs r h a w)
  where
    true_false : true ≢ false
    true_false e = cc e

-- the card holds the data from its block `k` on in the blocks of the frames `fs`, which are linked
pub data Stored (out data_ptr : Bytes) (size : ℕ) : ℕ → List ℕ → Type 0 where
  ended : {k : ℕ} → Stored out data_ptr size k []
  stored :
      {k : ℕ} (f : ℕ) (fs : List ℕ)
      → FrameSays out
          ((1 + f) * 128)
          (chain_state (k == 0) (map suc fs))
          size
          (chain_next (map suc fs))
      → ((j : ℕ) → j < 8192 → out (suc f * 8192 + j) ≡ data_ptr (k * 8192 + j))
      → Stored out data_ptr size (k + 1) fs
      → Stored out data_ptr size k (f ∷ fs)

-- The loop stores the data in the frames and their blocks, and keeps every other byte.
pub store-Stored :
    (img m : Bytes) (k lo : ℕ) (fs name : List ℕ) (data_ptr : Bytes) (size : ℕ)
    → Free img lo fs
    → length name ≤ 20
    → size < 2 ^ 32
    → Stored (store m k fs (map suc fs) name data_ptr size) data_ptr size k fs
      × ((x : ℕ) → Apart x fs → store m k fs (map suc fs) name data_ptr size x ≡ m x)
unfolding store
store-Stored img m k lo [] name data_ptr size nothing short small = (ended, λ x a. refl)
store-Stored img m k lo (f ∷ fs) name data_ptr size (free _ up few idle r) short small =
    let done = store_round m f k (suc f) (map suc fs) name data_ptr size in
    let out = store done (k + 1) fs (map suc fs) name data_ptr size in
    let round =
      store_round-Round m f k (suc f) (map suc fs) name data_ptr size few (omega arith) short
        small in
    let (later, kept) = store-Stored img done (k + 1) (suc f) fs name data_ptr size r short small in
    let own : (x : ℕ) → Within x f → out x ≡ done x =
      λ x w. kept x (Apart-below img (suc f) x f fs r (omega arith) few w) in
    (
      stored f fs
          (FrameSays-same out done ((1 + f) * 128) (chain_state (k == 0) (map suc fs)) size
            (chain_next (map suc fs))
            (λ c lt. own ((1 + f) * 128 + c) (inl (omega arith, omega arith))) round.says)
          (λ j lt. own (suc f * 8192 + j) (inr (omega arith, omega arith)) ∙ round.block j lt)
          later,
      λ x a. kept_all done round kept x a,
    )
  where
    kept_all :
        (done : Bytes)
        → Round m f k
            (suc f)
            (chain_state (k == 0) (map suc fs))
            (chain_next (map suc fs))
            data_ptr
            size
            done
        → ((x : ℕ) → Apart x fs → store done (k + 1) fs (map suc fs) name data_ptr size x ≡ done x)
        → (x : ℕ) → Apart x (f ∷ fs)
        → store done (k + 1) fs (map suc fs) name data_ptr size x ≡ m x
    kept_all done round kept x (not_in a b rest) = kept x rest ∙ round.kept x a b
