-- ===== src/Tim/Txd.antt =====
-- The TXD dictionary of decomp/src/tim/tim.c: strings between runs of NUL bytes.
pub mod Runs
use gt2_recomp.Prelude.{
  ℕ, zero, suc, ◌+◌, ◌-◌, Option, none, some, Outcome, ok, err, leb, ◌==◌, if◌then◌else◌,
}
use gt2_recomp.Bytes.{Bytes, u32}
use gt2_recomp.Tim.{TimStatus, not_found}

-- the loop over NUL bytes, with `n` bytes left
unfoldable pub skip_nuls : ℕ → Bytes → ℕ → ℕ
skip_nuls zero d p = p
skip_nuls (suc n) d p = let rest = skip_nuls n d (p + 1) in if d p == 0 then rest else p

-- the loop to the next NUL byte, with `n` bytes left
unfoldable pub run_end : ℕ → Bytes → ℕ → ℕ
run_end zero d j = j
run_end (suc n) d j = let rest = run_end n d (j + 1) in if d j == 0 then j else rest

-- one round: where the next string from `p` on starts and ends
unfoldable pub next_run : Bytes → ℕ → ℕ → Option (ℕ × ℕ)
next_run d len p =
    let start = skip_nuls (len - p) d p in
    if leb len p
    then none
    else if leb len start
    then none
    else some (start, run_end (len - start) d start)

-- The loop of gt2_txd_count: the strings from `p` on, `none` if it has not ended after the given rounds.
unfoldable pub txd_count_from : ℕ → Bytes → ℕ → ℕ → Option ℕ
txd_count_from zero d len p = none
txd_count_from (suc fuel) d len p = elim (next_run d len p) [
  | none ↦ some 0
  | some (start, stop) ↦ elim (txd_count_from fuel d len (u32 (stop + 1))) [
    | none ↦ none
    | some n ↦ some (suc n)
  ]
]

-- gt2_txd_count
unfoldable pub txd_count : Bytes → ℕ → Option ℕ
txd_count d len = txd_count_from (len + 2) d len 0

-- The loop of gt2_txd_get, with `i` strings still to pass: the start and the length.
unfoldable pub txd_get_from : Bytes → ℕ → ℕ → ℕ → Outcome TimStatus (ℕ × ℕ)
txd_get_from d len p zero = elim (next_run d len p) [
  | none ↦ err not_found
  | some (start, stop) ↦ ok (start, stop - start)
]
txd_get_from d len p (suc i) = elim (next_run d len p) [
  | none ↦ err not_found
  | some (start, stop) ↦ txd_get_from d len (u32 (stop + 1)) i
]

-- gt2_txd_get
unfoldable pub txd_get : Bytes → ℕ → ℕ → Outcome TimStatus (ℕ × ℕ)
txd_get d len i = txd_get_from d len 0 i
