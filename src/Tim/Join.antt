-- ===== src/Tim/Join.antt =====
-- gt2_gunzip_join of decomp/src/tim/tim.c: the gzip members of a chain, one after the other.
use gt2_recomp.Prelude.{
  ℕ, zero, suc, ◌+◌, ◌-◌, ◌*◌, ◌^◌, Bool, ◌&&◌, not, Option, none, some, List, [], ◌++◌, Outcome,
  ok, err, leb, ◌==◌, if◌then◌else◌, length,
}
use gt2_recomp.Bytes.{Bytes, u32, sector_floor}
use gt2_recomp.Vol.{Alloc}
use gt2_recomp.Inflate.{Zlib, Code, z_ok, stream_end, failed}
use gt2_recomp.Tim.{TimStatus, truncated, no_mem}

-- What the loop over one member ends with: the bytes so far, the buffer's size, the number of the next
-- allocation and the stream, or a failure.
pub data MemberEnd (z : Zlib) : Type 0 where
  whole : List ℕ → ℕ → ℕ → z.Stream → MemberEnd z
  broken : MemberEnd z

abbrev pub after_call :
    (z : Zlib) → Code → List ℕ → ℕ → ℕ → z.Stream → Option (MemberEnd z) → Option (MemberEnd z)
after_call z z_ok out room n s again = again
after_call z stream_end out room n s again = some (whole out room n s)
after_call z failed out room n s again = some broken

-- the loop over one member, `none` when the fuel runs out
unfoldable pub member_loop :
    ℕ → (z : Zlib) → Alloc → ℕ → ℕ → List ℕ → z.Stream → Option (MemberEnd z)
member_loop zero z alloc n size out s = none
member_loop (suc fuel) z alloc n size out s =
    let full = leb size (length out) in
    let room = if full then u32 (size * 2) else size in
    let next = if full then n + 1 else n in
    let (s', (rc, new)) = z.run s (room - length out) in
    let again = member_loop fuel z alloc next room (out ++ new) s' in
    if full && not (alloc n) then some broken else after_call z rc (out ++ new) room next s' again

-- the end of the call: its status so far, the members and the bytes
abbrev pub joined : Option TimStatus → ℕ → List ℕ → Outcome TimStatus (List ℕ)
joined st zero out = err truncated
joined none (suc members) out = ok out
joined (some e) (suc members) out = err e

-- the first two bytes of a gzip member
abbrev pub is_gzip : Bytes → ℕ → Bool
is_gzip bytes off = bytes off == 0x1F && bytes (off + 1) == 0x8B

abbrev pub max_members : ℕ
max_members = 4096

abbrev pub or_more :
    {z : Zlib}
    → Option (MemberEnd z)
    → ℕ
    → List ℕ
    → (List ℕ → ℕ → ℕ → z.Stream → Option (Outcome TimStatus (List ℕ)))
    → Option (Outcome TimStatus (List ℕ))
or_more none members out more = none
or_more (some broken) members out more = some (joined (some truncated) members out)
or_more (some (whole out' size n s)) members out more = more out' size n s

abbrev pub opened_or :
    (z : Zlib)
    → Option z.Stream
    → ℕ
    → List ℕ
    → (z.Stream → Option (Outcome TimStatus (List ℕ)))
    → Option (Outcome TimStatus (List ℕ))
opened_or z none members out more = some (joined (some no_mem) members out)
opened_or z (some s) members out more = more s

-- The loop over the chain from `off` on, `left` members before the limit. Each member is given the
-- same fuel.
unfoldable pub join_loop :
    ℕ → ℕ → Zlib → Alloc → Bytes → ℕ → ℕ → ℕ → ℕ → List ℕ → Option (Outcome TimStatus (List ℕ))
unfolding member_loop
join_loop zero fuel z alloc bytes len off n size out =
    if leb (u32 (off + 2)) len
    then some (joined (some truncated) max_members out)
    else some (joined none max_members out)
join_loop (suc left) fuel z alloc bytes len off n size out =
    let members = max_members - suc left in
    let over = some (joined none members out) in
    let more = opened_or z (z.start 47 (λ k. bytes (off + k)) (len - off)) members out (λ s.
      or_more (member_loop fuel z alloc n size out s) members out (λ out' size' n' s'.
        join_loop left fuel z alloc bytes len
          (sector_floor (u32 (u32 (off + u32 (z.used s')) + 2047))) n' size' out')) in
    if leb (u32 (off + 2)) len then (if is_gzip bytes off then more else over) else over

-- gt2_gunzip_join
unfoldable pub gunzip_join : ℕ → Zlib → Alloc → Bytes → ℕ → Option (Outcome TimStatus (List ℕ))
unfolding join_loop
gunzip_join fuel z alloc bytes len =
    if alloc 0
    then join_loop max_members fuel z alloc bytes len 0 1 (2 ^ 20) []
    else some (err no_mem)
