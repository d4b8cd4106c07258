-- ===== src/Task/Transfer.antt =====
-- The queued transfer of gt2_task_b2_queue and gt2_task_b2_complete.
use gt2_recomp.Prelude.{
  ℕ, ◌+◌, ◌-◌, ◌^◌, ◌<◌, ◌≤◌, ◌≡◌, ◌↔◌, refl, sym, ◌∙◌, true, false, not, ◌||◌, Option, some, none,
  ok, err, arith, ltb, leb, >>=-eq-ok, ◌>>=◌, ◌>>◌, guard, ok-injective, guard-eq-ok, lt→ltb,
  ltb→lt, leb→le,
}
use gt2_recomp.Bytes.{Bytes, copy, sub32, sector_floor}
use gt2_recomp.Vol.{Vol, tbl_entry}
use gt2_recomp.Task.{
  not_found, truncated, B2Req, b2_q2slot, b2_queue, b2_complete, queued, tbl_or_io,
}

-- the cache resolves to a file between the table carriers and the end marker, with an ordered range
pub record Queueable (q2 : ℕ → ℕ) (nq2 : ℕ) (v : Vol) : Type 0 where
  pub cached : b2_q2slot < nq2
  pub carried : 2 ≤ q2 b2_q2slot
  pub indexed : q2 b2_q2slot + 1 < v.data_count
  pub ordered : v.tbl (q2 b2_q2slot) ≤ v.tbl (q2 b2_q2slot + 1)

tbl_entry-in : (v : Vol) (i : ℕ) → i ≤ v.data_count → tbl_entry v i ≡ ok (v.tbl i)
unfolding tbl_entry
tbl_entry-in v i h = let e : ltb v.data_count i ≡ false = ground arith in rw e refl

tbl_or_io-in : (v : Vol) (i : ℕ) → i ≤ v.data_count → tbl_or_io v i ≡ ok (v.tbl i)
unfolding tbl_or_io
tbl_or_io-in v i h =
    let e : tbl_entry v i ≡ ok (v.tbl i) = tbl_entry-in v i h in rw (e, tbl_or_io) refl

-- past the guards the lookups of the table cannot fail
after_guards :
    (v : Vol) (lba heap : ℕ) (dst16 : Option Bytes) (idx : ℕ)
    → idx + 1 ≤ v.data_count
    → (do
      start ← tbl_or_io v idx
      end ← tbl_or_io v (idx + 1)
      guard (leb start end) truncated
      ok (queued lba heap dst16 idx start end))
      ≡ (do
        guard (leb (v.tbl idx) (v.tbl (idx + 1))) truncated
        ok (queued lba heap dst16 idx (v.tbl idx) (v.tbl (idx + 1))))
after_guards v lba heap dst16 idx h =
    rw (tbl_or_io-in v idx (omega arith), tbl_or_io-in v (idx + 1) h) refl

queue_total :
    (q2 : ℕ → ℕ) (nq2 : ℕ) (v : Vol) (lba heap : ℕ) (dst16 : Option Bytes)
    → Queueable q2 nq2 v
    → b2_queue q2 nq2 v lba heap dst16
      ≡ ok (queued lba heap dst16 (q2 b2_q2slot) (v.tbl (q2 b2_q2slot)) (v.tbl (q2 b2_q2slot + 1)))
unfolding b2_queue
queue_total q2 nq2 v lba heap dst16 p =
    let idx = q2 b2_q2slot in
    let a : ltb b2_q2slot nq2 ≡ true = ground (arith, p.cached) in
    let b : ltb idx 2 ≡ false = ground (arith, p.carried) in
    let c : leb v.data_count (idx + 1) ≡ false = ground (arith, p.indexed) in
    let d : leb (v.tbl idx) (v.tbl (idx + 1)) ≡ true = ground (arith, p.ordered) in
    let e : idx + 1 ≤ v.data_count = omega (arith, p.indexed) in
    rw (a, b, c) (after_guards v lba heap dst16 idx e ∙ rw d refl)

queue_ok :
    (q2 : ℕ → ℕ) (nq2 : ℕ) (v : Vol) (lba heap : ℕ) (dst16 : Option Bytes) (out : B2Req × ℕ)
    → b2_queue q2 nq2 v lba heap dst16 ≡ ok out
    → Queueable q2 nq2 v
      × (out
          ≡ queued lba heap dst16 (q2 b2_q2slot) (v.tbl (q2 b2_q2slot)) (v.tbl (q2 b2_q2slot + 1)))
unfolding b2_queue
queue_ok q2 nq2 v lba heap dst16 out h =
    let idx = q2 b2_q2slot in
    let (u, a, h1) = >>=-eq-ok (guard (ltb b2_q2slot nq2) not_found) _ h in
    let (w, b, h2) =
      >>=-eq-ok (guard (not (ltb idx 2 || leb v.data_count (idx + 1))) not_found) _ h1 in
    let a' = guard-eq-ok (ltb b2_q2slot nq2) not_found a in
    let b' = guard-eq-ok (not (ltb idx 2 || leb v.data_count (idx + 1))) not_found b in
    let low : 2 ≤ idx = ground (arith, b') in
    let high : idx + 1 < v.data_count = ground (arith, b') in
    let h3 = sym (after_guards v lba heap dst16 idx (omega arith)) ∙ h2 in
    let (x, c, same) = >>=-eq-ok (guard (leb (v.tbl idx) (v.tbl (idx + 1))) truncated) _ h3 in
    let c' = guard-eq-ok (leb (v.tbl idx) (v.tbl (idx + 1))) truncated c in
    (
      record {
        cached = ltb→lt b2_q2slot nq2 a';
        carried = low;
        indexed = high;
        ordered = leb→le _ _ c';
      },
      sym (ok-injective same),
    )

-- gt2_task_b2_queue queues a transfer exactly when slot 247 of the cache resolves to a file that has a
-- valid range, and what it queues is the request and the heap cell of that range.
pub b2_queue-iff-Queueable :
    (q2 : ℕ → ℕ) (nq2 : ℕ) (v : Vol) (lba heap : ℕ) (dst16 : Option Bytes) (out : B2Req × ℕ)
    → (b2_queue q2 nq2 v lba heap dst16 ≡ ok out) ↔ (
        Queueable q2 nq2 v
        × (out
            ≡ queued lba heap dst16
                (q2 b2_q2slot)
                (v.tbl (q2 b2_q2slot))
                (v.tbl (q2 b2_q2slot + 1))))
b2_queue-iff-Queueable q2 nq2 v lba heap dst16 out = (
  λ h. queue_ok q2 nq2 v lba heap dst16 out h,
  λ p. rw p.1 (queue_total q2 nq2 v lba heap dst16 p.0),
)

xfer_exact :
    (start end : ℕ)
    → start ≤ sector_floor end
    → end < 2 ^ 32
    → sub32 (sector_floor end) start ≡ sector_floor end - start
xfer_exact start end h small = omega arith

-- The completed transfer deposits the file up to the last sector boundary in it, if the file reaches one,
-- and leaves the rest of the buffer.
pub b2_complete-deposits :
    (lba heap : ℕ) (dst16 : Option Bytes) (idx start end : ℕ) (file dst : Bytes)
    → start ≤ sector_floor end
    → end < 2 ^ 32
    → b2_complete (queued lba heap dst16 idx start end).0 (some file) (end - start) dst
      ≡ ok (copy dst 0 file (sector_floor end - start))
unfolding b2_complete queued
b2_complete-deposits lba heap dst16 idx start end file dst h small =
    let x = xfer_exact start end h small in
    let fits : ltb (end - start) (sector_floor end - start) ≡ false = ground arith in
    rw (x, fits) refl

-- A file that ends before the next sector boundary asks for more than it holds, since the length wraps,
-- and the completion is refused.
pub b2_complete-short :
    (lba heap : ℕ) (dst16 : Option Bytes) (idx start end : ℕ) (file : Option Bytes) (dst : Bytes)
    → sector_floor end < start
    → start ≤ end
    → end < 2 ^ 32
    → b2_complete (queued lba heap dst16 idx start end).0 file (end - start) dst ≡ err truncated
unfolding b2_complete queued
b2_complete-short lba heap dst16 idx start end none dst h ord small =
    let over : ltb (end - start) (sub32 (sector_floor end) start) ≡ true =
      lt→ltb _ _ (omega arith) in
    rw over refl
b2_complete-short lba heap dst16 idx start end (some file) dst h ord small =
    let over : ltb (end - start) (sub32 (sector_floor end) start) ≡ true =
      lt→ltb _ _ (omega arith) in
    rw over refl
