-- ===== src/Mcd/Store/RoundTrip.antt =====
-- A file that gt2_mcd_write stores reads back.
use gt2_recomp.Prelude.{
  ℕ, zero, suc, ◌+◌, ◌*◌, ◌/◌, ◌%◌, ◌<◌, ◌≤◌, ◌≡◌, refl, sym, ap, ◌∙◌, Bool, true, false, some,
  List, [], ◌∷◌, ok, arith, ltb, leb, ◌==◌, Bool-cases, inl, inr, length, map, get_elem?,
  get_elem?_total,
}
use gt2_recomp.Bytes.{Bytes, le32}
use gt2_recomp.Mcd.{
  dir_entries, st_first, dir, entry_at, frame_at, in_use, count_from, file_count, read,
}
use gt2_recomp.Mcd.Chains.{link, Chain, one, more, Holds}
use gt2_recomp.Mcd.Reads.{blocks_of, read-ReadsChain, read-total, Chain-pos}
use gt2_recomp.Mcd.Store.{
  entry_in_use, pick_frames, pick_blocks, used_blocks, name_taken, chain_state, chain_next, store,
  request_ok, write_file,
}
use gt2_recomp.Mcd.Store.Frame.{FrameSays}
use gt2_recomp.Mcd.Store.Used.{IsSound, used_blocks_iff, pick_blocks-map}
use gt2_recomp.Mcd.Store.Stored.{
  Free, free, pick_frames-Free, Within, Apart-used, Stored, ended, stored, store-Stored,
}

pub entry_in_use-state :
    (img : Bytes) (i : ℕ) → i < 15 → entry_in_use img i ≡ in_use (le32 img (frame_at 0 (1 + i)))
unfolding entry_in_use dir entry_at
entry_in_use-state img i h =
    let inside : leb dir_entries i ≡ false = ground arith in rw (inside, entry_in_use) refl

-- there are enough free entries
length-pick_frames :
    (n : ℕ) (img : Bytes) (i need : ℕ)
    → i + n ≤ 15
    → count_from n img i + need ≤ n
    → length (pick_frames n img i need) ≡ need
unfolding pick_frames count_from
length-pick_frames zero img i zero h e = refl
length-pick_frames zero img i (suc need) h e = absurd (omega arith)
length-pick_frames (suc n) img i zero h e = refl
length-pick_frames (suc n) img i (suc need) h e =
    let s = entry_in_use-state img i (omega arith) in
    elim (Bool-cases (in_use (le32 img (frame_at 0 (1 + i))))) [
      | inl busy ↦
          rw (s, busy)
            (length-pick_frames n img (i + 1) (suc need) (omega arith)
              (omega (arith, rw busy at e)))
      | inr idle ↦
          let ih =
            length-pick_frames n img (i + 1) need (omega arith) (omega (arith, rw idle at e)) in
          rw (s, idle) (ap suc ih)
    ]

Stored-Chain :
    (img out data_ptr : Bytes) (size k lo f : ℕ) (fs : List ℕ)
    → Free img lo (f ∷ fs)
    → Stored out data_ptr size k (f ∷ fs)
    → Chain out (suc f) (map suc (f ∷ fs))
unfolding chain_next
Stored-Chain img out data_ptr size k lo f [] (free _ up few idle r) (stored _ _ says block later) =
    one (omega arith) (omega arith)
Stored-Chain img out data_ptr size k lo f (g ∷ gs) (free _ up few idle r)
      (stored _ _ says block later) =
    let few_g : g < 15 = first_few r in
    let at : link out (suc f) ≡ g = link_of says few_g in
    let e : g + 1 ≡ suc g = omega arith in
    more (omega arith) (omega arith) (λ last. absurd (omega arith))
      (rw (at, e) (Stored-Chain img out data_ptr size (k + 1) (suc f) g gs r later))
  where
    first_few : Free img (suc f) (g ∷ gs) → g < 15
    first_few (free _ a b c d) = b

    link_of :
        FrameSays out
          ((1 + f) * 128)
          (chain_state (k == 0) (map suc (g ∷ gs)))
          size
          (chain_next (map suc (g ∷ gs)))
        → g < 15
        → link out (suc f) ≡ g
    link_of says lt =
        let e : (1 + f) * 128 + 8 ≡ suc f * 128 + 8 = omega arith in
        let next = rw e at says.next_at in omega arith

Stored-at :
    (out data_ptr : Bytes) (size k : ℕ) (fs : List ℕ)
    → Stored out data_ptr size k fs
    → (j blk c : ℕ) → get_elem? (map suc fs) j ≡ some blk
    → c < 8192
    → out (blk * 8192 + c) ≡ data_ptr ((k + j) * 8192 + c)
Stored-at out data_ptr size k [] ended j blk c h lt = cc
Stored-at out data_ptr size k (f ∷ fs) (stored _ _ says block later) zero blk c h lt =
    let same : suc f ≡ blk = cc in let e : k + 0 ≡ k = omega arith in rw (← same, e) (block c lt)
Stored-at out data_ptr size k (f ∷ fs) (stored _ _ says block later) (suc j) blk c h lt =
    let e : k + suc j ≡ k + 1 + j = omega arith in
    rw e (Stored-at out data_ptr size (k + 1) fs later j blk c h lt)

-- a chain is determined by its start and its length
Chain-unique :
    (img : Bytes) (blk : ℕ) (a b : List ℕ)
    → Chain img blk a
    → Chain img blk b
    → length a ≡ length b
    → a ≡ b
Chain-unique img blk [] b p q e = elim p [ ]
Chain-unique img blk (x ∷ a) [] p q e = elim q [ ]
Chain-unique img blk (x ∷ []) (y ∷ []) (one _ _) (one _ _) e = refl
Chain-unique img blk (x ∷ []) (y ∷ b) (one _ _) (more _ _ _ q) e =
    let some_there = Chain-pos img (link img blk + 1) b q in absurd (omega arith)
Chain-unique img blk (x ∷ a) (y ∷ []) (more _ _ _ p) (one _ _) e =
    let some_there = Chain-pos img (link img blk + 1) a p in absurd (omega arith)
Chain-unique img blk (x ∷ a) (y ∷ b) (more _ _ _ p) (more _ _ _ q) e =
    ap (λ t. blk ∷ t) (Chain-unique img (link img blk + 1) a b p q (omega arith))

-- what a card holds of a stored file, and what it keeps of the card before
pub record Holding (img : Bytes) (size : ℕ) (data_ptr out : Bytes) (i : ℕ) : Type 0 where
  pub fresh : (i < 15) × (entry_in_use img i ≡ false)
  pub buf : Bytes
  pub read_back : read out i true ≡ ok (buf, size)
  pub same : (x : ℕ) → x < size → buf x ≡ data_ptr x
  pub kept : (g x : ℕ) → g < 15 → entry_in_use img g ≡ true → Within x g → out x ≡ img x

length-map-suc : (fs : List ℕ) → length (map suc fs) ≡ length fs
length-map-suc [] = refl
length-map-suc (f ∷ fs) = ap suc (length-map-suc fs)

-- the buffer that is read holds the data, block by block
same_data :
    (out data_ptr buf : Bytes) (size : ℕ) (fs : List ℕ)
    → Stored out data_ptr size 0 fs
    → Holds out (map suc fs) 0 buf
    → size ≡ length fs * 8192
    → (x : ℕ) → x < size
    → buf x ≡ data_ptr x
same_data out data_ptr buf size fs s h e x lt =
    let n = length-map-suc fs in
    let (blk, at) = get_elem?_total (map suc fs) (x / 8192) (omega arith) in
    let split : (0 + x / 8192) * 8192 + x % 8192 ≡ x = omega arith in
    let low : x % 8192 < 8192 = omega arith in
    let from = rw split at (h (x / 8192) blk (x % 8192) at low) in
    let to = rw split at (Stored-at out data_ptr size 0 fs s (x / 8192) blk (x % 8192) at low) in
    from ∙ to

Holding-of :
    (img out data_ptr : Bytes) (size f : ℕ) (fs : List ℕ)
    → Free img 0 (f ∷ fs)
    → Stored out data_ptr size 0 (f ∷ fs)
    → size ≡ length (f ∷ fs) * 8192
    → length (f ∷ fs) ≤ 15
    → ((g x : ℕ) → g < 15 → entry_in_use img g ≡ true → Within x g → out x ≡ img x)
    → Holding img size data_ptr out f
unfolding chain_state
Holding-of img out data_ptr size f fs (free _ up few idle r) (stored _ _ says block later) sized
      short kept =
    let all : Stored out data_ptr size 0 (f ∷ fs) = stored f fs says block later in
    let chain = Stored-Chain img out data_ptr size 0 0 f fs (free f up few idle r) all in
    let n = length-map-suc (f ∷ fs) in
    let e : (1 + f) * 128 ≡ (f + 1) * 128 = omega arith in
    let next : f + 1 ≡ suc f = omega arith in
    let state : le32 out ((f + 1) * 128) ≡ st_first = rw e at says.state_at in
    let size_at : le32 out ((f + 1) * 128 + 4) ≡ size = rw e at says.size_at in
    let number : length (map suc (f ∷ fs)) ≡ blocks_of size = omega arith in
    let from : Chain out (f + 1) (map suc (f ∷ fs)) = rw next chain in
    let (buf, done) =
      read-total out f (map suc (f ∷ fs)) few state from (number ∙ sym (ap blocks_of size_at))
        (omega arith) in
    let done' : read out f true ≡ ok (buf, size) = done ∙ ap (λ n. ok (buf, n)) size_at in
    let back = read-ReadsChain out f true buf size done' in
    let bs_same : back.blocks ≡ map suc (f ∷ fs) =
      Chain-unique out (f + 1) back.blocks (map suc (f ∷ fs)) back.chain from
        (back.number ∙ sym number) in
    let held : Holds out (map suc (f ∷ fs)) 0 buf = rw bs_same at back.holds in
    record {
      fresh = (few, idle);
      buf = buf;
      read_back = done';
      same = same_data out data_ptr buf size (f ∷ fs) all held sized;
      kept = kept;
    }

request_ok-fits :
    (name : List ℕ) (size need : ℕ)
    → 0 < length name
    → length name ≤ 20
    → 0 < need
    → need ≤ 15
    → size ≡ need * 8192
    → request_ok name size ≡ true
unfolding request_ok
request_ok-fits name size need a b c d e =
    let named : (length name == 0) ≡ false = ground arith in
    let short : ltb 20 (length name) ≡ false = ground arith in
    let some_data : (size == 0) ≡ false = ground arith in
    let whole : size % 8192 ≡ 0 = omega arith in
    let small : ltb (15 * 8192) size ≡ false = ground arith in
    rw (named, short, some_data, whole, small) refl

-- the call where no guard stops it
write_file-store :
    (fuel : ℕ) (img : Bytes) (name : List ℕ) (data_ptr : Bytes) (size need : ℕ) (used : ℕ → Bool)
    (ps : List ℕ)
    → request_ok name size ≡ true
    → size / 8192 ≡ need
    → name_taken dir_entries img 0 name ≡ false
    → used_blocks fuel img ≡ some used
    → pick_blocks 15 used 1 need ≡ ps
    → length ps ≡ need
    → length (pick_frames dir_entries img 0 need) ≡ need
    → write_file fuel img name data_ptr size
      ≡ some (ok (store img 0 (pick_frames dir_entries img 0 need) ps name data_ptr size))
unfolding write_file
write_file-store fuel img name data_ptr size need used ps good f new marks picked n m =
    let enough : ltb need need ≡ false = ground arith in
    rw (good, new, marks, write_file, f, picked, n, m, enough) refl

-- On a card whose chains stay in frames in use and end, gt2_mcd_write returns: a file of 1 to 15 blocks
-- with a new name of 1 to 20 characters is stored if as many entries are free. The card then has a fresh
-- entry that gt2_mcd_read reads back as the data, and the frame and the block of each entry that was in
-- use are as before.
pub write_file-read :
    (fuel : ℕ) (img : Bytes) (name : List ℕ) (data_ptr : Bytes) (size need : ℕ)
    → IsSound fuel img
    → (0 < length name) × (length name ≤ 20)
    → (0 < need) × (need ≤ 15) × (size ≡ need * 8192)
    → name_taken dir_entries img 0 name ≡ false
    → file_count img + need ≤ 15
    → (out : Bytes) × (i : ℕ) × (write_file fuel img name data_ptr size ≡ some (ok out))
      × Holding img size data_ptr out i
unfolding file_count
write_file-read fuel img name data_ptr size need sound (some_name, short) (pos, few, sized) new
      room =
    let frames = pick_frames dir_entries img 0 need in
    let out = store img 0 frames (map suc frames) name data_ptr size in
    let n : length frames ≡ need = length-pick_frames 15 img 0 need (omega arith) room in
    let idle = pick_frames-Free 15 img 0 need (omega arith) in
    let (used, marks, own) = used_blocks_iff fuel img sound in
    let picked : pick_blocks 15 used 1 need ≡ map suc frames =
      pick_blocks-map 15 0 need img used (λ j lo hi. own j hi) in
    let (s, kept) = store-Stored img img 0 0 frames name data_ptr size idle short (omega arith) in
    let f : (size / 8192) ≡ need = omega arith in
    let n' : length (map suc frames) ≡ need = length-map-suc frames ∙ n in
    let good = request_ok-fits name size need some_name short pos few sized in
    let (i, held) =
      at_first frames n idle s (λ g x a b w. kept x (Apart-used img 0 x g frames idle b a w)) in
    (
      out,
      i,
      write_file-store fuel img name data_ptr size need used (map suc frames) good f new marks
          picked n' n,
      held,
    )
  where
    at_first :
        {out : Bytes} (fs : List ℕ)
        → length fs ≡ need
        → Free img 0 fs
        → Stored out data_ptr size 0 fs
        → ((g x : ℕ) → g < 15 → entry_in_use img g ≡ true → Within x g → out x ≡ img x)
        → (i : ℕ) × Holding img size data_ptr out i
    at_first [] n idle s kept = absurd (omega arith)
    at_first {out = out} (f ∷ fs) n idle s kept =
        (f, Holding-of img out data_ptr size f fs idle s (omega arith) (omega arith) kept)
