-- ===== src/Tim/Txd/Runs.antt =====
-- gt2_txd_count and gt2_txd_get against the list of maximal runs of bytes that are not NUL.
use gt2_recomp.Prelude.{
  ℕ, zero, suc, ◌+◌, ◌-◌, ◌^◌, ◌<◌, ◌≤◌, ◌≡◌, ◌≢◌, ◌⊎◌, refl, ap, ◌∙◌, Option, none, some, List, [],
  ◌∷◌, ok, err, arith, leb, ◌==◌, Bool-cases, inl, inr, ==→eq, ==→ne, length, get_elem?,
}
use gt2_recomp.Bytes.{Bytes, u32}
use gt2_recomp.Tim.{not_found}
use gt2_recomp.Tim.Txd.{
  skip_nuls, run_end, next_run, txd_count_from, txd_count, txd_get_from, txd_get,
}

-- `[start, stop)` is the first maximal run of bytes that are not NUL at or after `p`
pub record Run (d : Bytes) (len p start stop : ℕ) : Type 0 where
  pub after : p ≤ start
  pub nonempty : start < stop
  pub inside : stop ≤ len
  pub gap : (k : ℕ) → p ≤ k → k < start → d k ≡ 0
  pub body : (k : ℕ) → start ≤ k → k < stop → d k ≢ 0
  pub maximal : stop < len → d stop ≡ 0

-- the runs from `p` on, in order
pub data Runs (d : Bytes) (len : ℕ) : ℕ → List (ℕ × ℕ) → Type 0 where
  blank : {p : ℕ} → ((k : ℕ) → p ≤ k → k < len → d k ≡ 0) → Runs d len p []
  run :
      {p : ℕ} {rs : List (ℕ × ℕ)} (start stop : ℕ)
      → Run d len p start stop
      → Runs d len (u32 (stop + 1)) rs
      → Runs d len p ((start, stop) ∷ rs)

-- the skipping loop stops at the first byte that is not NUL, or at the end
record Skipped (d : Bytes) (p q e : ℕ) : Type 0 where
  after : p ≤ q
  within : q ≤ e
  zeros : (k : ℕ) → p ≤ k → k < q → d k ≡ 0
  stopped : q < e → d q ≢ 0

skip_nuls-Skipped : (n : ℕ) (d : Bytes) (p : ℕ) → Skipped d p (skip_nuls n d p) (p + n)
unfolding skip_nuls
skip_nuls-Skipped zero d p = record {
  after = omega arith;
  within = omega arith;
  zeros = λ k lo hi. absurd (omega arith);
  stopped = λ h. absurd (omega arith);
}
skip_nuls-Skipped (suc n) d p = elim (Bool-cases (d p == 0)) [
  | inr full ↦ rw full (record {
    after = omega arith;
    within = omega arith;
    zeros = λ k lo hi. absurd (omega arith);
    stopped = λ h. ==→ne (d p) 0 full;
  })
  | inl nul ↦
      let s = skip_nuls-Skipped n d (p + 1) in
      rw nul (record {
        after = omega (arith, s.after);
        within = omega (arith, s.within);
        zeros = λ k lo hi. elim (Bool-cases (k == p)) [
          | inl here ↦ rw (==→eq k p here) (==→eq (d p) 0 nul)
          | inr later ↦ s.zeros k (omega (arith, ==→ne k p later)) hi
        ];
        stopped = λ h. s.stopped (omega arith);
      })
]

record Ended (d : Bytes) (p q e : ℕ) : Type 0 where
  after : p ≤ q
  within : q ≤ e
  full : (k : ℕ) → p ≤ k → k < q → d k ≢ 0
  stopped : q < e → d q ≡ 0

run_end-Ended : (n : ℕ) (d : Bytes) (p : ℕ) → Ended d p (run_end n d p) (p + n)
unfolding run_end
run_end-Ended zero d p = record {
  after = omega arith;
  within = omega arith;
  full = λ k lo hi. absurd (omega arith);
  stopped = λ h. absurd (omega arith);
}
run_end-Ended (suc n) d p = elim (Bool-cases (d p == 0)) [
  | inl nul ↦ rw nul (record {
    after = omega arith;
    within = omega arith;
    full = λ k lo hi. absurd (omega arith);
    stopped = λ h. ==→eq (d p) 0 nul;
  })
  | inr more ↦
      let s = run_end-Ended n d (p + 1) in
      rw more (record {
        after = omega (arith, s.after);
        within = omega (arith, s.within);
        full = λ k lo hi. elim (Bool-cases (k == p)) [
          | inl here ↦ rw (==→eq k p here) (==→ne (d p) 0 more)
          | inr later ↦ s.full k (omega (arith, ==→ne k p later)) hi
        ];
        stopped = λ h. s.stopped (omega arith);
      })
]

-- what one round of either loop finds
data Next (d : Bytes) (len p : ℕ) : Option (ℕ × ℕ) → Type 0 where
  over : ((k : ℕ) → p ≤ k → k < len → d k ≡ 0) → Next d len p none
  found : (start stop : ℕ) → Run d len p start stop → Next d len p (some (start, stop))

Run-stop :
    (d : Bytes) (len p start stop e : ℕ)
    → Skipped d p start len
    → start < len
    → Ended d start stop e
    → e ≡ len
    → Run d len p start stop
Run-stop d len p start stop e s h r same = record {
  after = s.after;
  nonempty = elim (Bool-cases (start == stop)) [
    | inl none_there ↦
        let here = ==→eq start stop none_there in
        let nul = r.stopped (omega (arith, here)) in absurd (s.stopped h (ap d here ∙ nul))
    | inr some_there ↦ omega (arith, ==→ne start stop some_there, r.after)
  ];
  inside = omega (arith, r.within);
  gap = s.zeros;
  body = r.full;
  maximal = λ lt. r.stopped (omega arith);
}

next_run-Next : (d : Bytes) (len p : ℕ) → Next d len p (next_run d len p)
unfolding next_run
next_run-Next d len p = elim (Bool-cases (leb len p)) [
  | inl past ↦ rw past (over (λ k lo hi. absurd (ground (arith, past))))
  | inr inside ↦
      let lt : p < len = ground (arith, inside) in
      let e : p + (len - p) ≡ len = omega arith in
      let s : Skipped d p (skip_nuls (len - p) d p) len =
        rw e at (skip_nuls-Skipped (len - p) d p) in
      elim (Bool-cases (leb len (skip_nuls (len - p) d p))) [
        | inl blank_rest ↦
            let all : len ≤ skip_nuls (len - p) d p = ground (arith, blank_rest) in
            rw (inside, blank_rest) (over (λ k lo hi. s.zeros k lo (omega arith)))
        | inr full ↦
            let start = skip_nuls (len - p) d p in
            let h : start < len = ground (arith, full) in
            rw (inside, full)
              (found start (run_end (len - start) d start) (
                Run-stop d len p start (run_end (len - start) d start) (start + (len - start)) s h
                  (run_end-Ended (len - start) d start) (omega arith)))
      ]
]

txd_count_from-over :
    (f : ℕ) (d : Bytes) (len p : ℕ)
    → next_run d len p ≡ none
    → txd_count_from (suc f) d len p ≡ some 0
unfolding txd_count_from
txd_count_from-over f d len p e = rw (e, txd_count_from) refl

txd_count_from-found :
    (f : ℕ) (d : Bytes) (len p start stop n : ℕ)
    → next_run d len p ≡ some (start, stop)
    → txd_count_from f d len (u32 (stop + 1)) ≡ some n
    → txd_count_from (suc f) d len p ≡ some (suc n)
unfolding txd_count_from
txd_count_from-found f d len p start stop n e h = rw (e, txd_count_from, h) refl

-- a round as an equation, with what it means
next_run-cases :
    (d : Bytes) (len p : ℕ)
    → ((next_run d len p ≡ none) × ((k : ℕ) → p ≤ k → k < len → d k ≡ 0))
      ⊎ ((start : ℕ) × (stop : ℕ) × (next_run d len p ≡ some (start, stop))
          × Run d len p start stop)
next_run-cases d len p = read (next_run d len p) (next_run-Next d len p)
  where
    read :
        (o : Option (ℕ × ℕ))
        → Next d len p o
        → ((o ≡ none) × ((k : ℕ) → p ≤ k → k < len → d k ≡ 0))
          ⊎ ((start : ℕ) × (stop : ℕ) × (o ≡ some (start, stop)) × Run d len p start stop)
    read none (over h) = inl (refl, h)
    read (some _) (found start stop r) = inr (start, stop, refl, r)

-- the answers of gt2_txd_get from `p` on, against the runs `rs`
record Answers (d : Bytes) (len p : ℕ) (rs : List (ℕ × ℕ)) : Type 0 where
  known :
      (i start stop : ℕ)
      → get_elem? rs i ≡ some (start, stop)
      → txd_get_from d len p i ≡ ok (start, stop - start)
  unknown : (i : ℕ) → length rs ≤ i → txd_get_from d len p i ≡ err not_found

Answers-over : (d : Bytes) (len p : ℕ) → next_run d len p ≡ none → Answers d len p []
unfolding txd_get_from
Answers-over d len p e = record { known = λ i start stop h. cc h; unknown = λ i h. past i }
  where
    past : (i : ℕ) → txd_get_from d len p i ≡ err not_found
    past zero = rw (e, txd_get_from) refl
    past (suc i) = rw (e, txd_get_from) refl

Answers-found :
    (d : Bytes) (len p start stop : ℕ) (rs : List (ℕ × ℕ))
    → next_run d len p ≡ some (start, stop)
    → Answers d len (u32 (stop + 1)) rs
    → Answers d len p ((start, stop) ∷ rs)
unfolding txd_get_from
Answers-found d len p start stop rs e a = record { known = here; unknown = past }
  where
    here :
        (i first last : ℕ)
        → get_elem? ((start, stop) ∷ rs) i ≡ some (first, last)
        → txd_get_from d len p i ≡ ok (first, last - first)
    here zero first last h = rw (e, txd_get_from) (cc h)
    here (suc i) first last h = rw (e, txd_get_from) (a.known i first last h)

    past : (i : ℕ) → length ((start, stop) ∷ rs) ≤ i → txd_get_from d len p i ≡ err not_found
    past zero h = absurd (omega arith)
    past (suc i) h = rw (e, txd_get_from) (a.unknown i (omega arith))

txd_from-Runs :
    (f : ℕ) (d : Bytes) (len p : ℕ)
    → len < 2 ^ 31
    → p ≤ len + 1
    → len + 1 - p < f
    → (rs : List (ℕ × ℕ)) × Runs d len p rs
      × (txd_count_from f d len p ≡ some (length rs))
      × Answers d len p rs
txd_from-Runs zero d len p small h fuel = elim fuel [ ]
txd_from-Runs (suc f) d len p small h fuel = elim (next_run-cases d len p) [
  | inl (e, nul) ↦ ([], blank nul, txd_count_from-over f d len p e, Answers-over d len p e)
  | inr (start, stop, e, r) ↦
      let lo = r.after in
      let some_there = r.nonempty in
      let hi = r.inside in
      let (rs, c, n, a) =
        txd_from-Runs f d len (u32 (stop + 1)) small (omega arith) (omega arith) in
      (
        (start, stop) ∷ rs,
        run start stop r c,
        txd_count_from-found f d len p start stop (length rs) e n,
        Answers-found d len p start stop rs e a,
      )
]

-- For a buffer below 2 ^ 31 bytes there is a list of its maximal runs of bytes that are not NUL, in
-- order, such that gt2_txd_count returns how many there are, gt2_txd_get returns the start and the length
-- of the run at each index below that number, and GT2_TIM_ERR_NOT_FOUND for every other index.
pub txd-Runs :
    (d : Bytes) (len : ℕ)
    → len < 2 ^ 31
    → (rs : List (ℕ × ℕ)) × Runs d len 0 rs
      × (txd_count d len ≡ some (length rs))
      × ((i start stop : ℕ)
          → get_elem? rs i ≡ some (start, stop)
          → txd_get d len i ≡ ok (start, stop - start))
      × ((i : ℕ) → length rs ≤ i → txd_get d len i ≡ err not_found)
unfolding txd_count txd_get
txd-Runs d len small =
    let (rs, c, n, a) = txd_from-Runs (len + 2) d len 0 small (omega arith) (omega arith) in
    (rs, c, n, a.known, a.unknown)
