-- ===== src/Menu/Counter.antt =====
-- The life of a menu record's counter.
use gt2_recomp.Prelude.{
  ℕ, zero, suc, ◌+◌, ◌^◌, ◌<◌, ◌≡◌, sym, ap, ◌∙◌, leb, ltb, ◌==◌, if◌then◌else◌, arith,
}
use gt2_recomp.Bytes.{Bytes}
use gt2_recomp.Menu.{MenuRec, bumped, counter_bump, record_init}

-- `n` calls of gt2_menu_counter_bump
unfoldable pub bumps : ℕ → MenuRec → MenuRec
bumps zero rec = rec
bumps (suc n) rec = bumps n (counter_bump rec)

-- The counter after `n` bumps. An active one rises to 12 and stays; one above 12 falls to 12 at the
-- first bump; the largest wraps to the smallest; a negative one rises to -1 and stays.
abbrev pub lifetime : ℕ → ℕ → ℕ
lifetime c n =
    if leb c 12
    then (if leb (c + n) 12 then c + n else 12)
    else if ltb c 0x7FFF
    then (if n == 0 then c else 12)
    else if leb (c + n) 0xFFFF
    then c + n
    else 0xFFFF

bumped-lifetime : (c : ℕ) → c < 2 ^ 16 → bumped c ≡ lifetime c 1
unfolding bumped
bumped-lifetime c h = ground arith

lifetime_next : (c n : ℕ) → lifetime (lifetime c 1) n ≡ lifetime c (suc n)
lifetime_next c n = ground arith

lifetime-lt : (c : ℕ) → c < 2 ^ 16 → lifetime c 1 < 2 ^ 16
lifetime-lt c h = ground arith

lifetime_start : (c : ℕ) → c < 2 ^ 16 → lifetime c 0 ≡ c
lifetime_start c h = ground arith

-- After any number of bumps a 16-bit counter is where its lifetime says: an active one has risen by
-- that number, at most to 12, a parked one is still at -1, and one below -1 has risen, at most to -1;
-- the other fields of the record are as they were.
pub bumps-lifetime :
    (n : ℕ) (rec : MenuRec)
    → rec.cnt < 2 ^ 16
    → bumps n rec ≡ record rec { cnt = lifetime rec.cnt n }
unfolding bumps counter_bump
bumps-lifetime zero rec h = ap (λ c. record rec { cnt = c }) (sym (lifetime_start rec.cnt h))
bumps-lifetime (suc n) rec h =
    let one = bumped-lifetime rec.cnt h in
    bumps-lifetime n (counter_bump rec) (omega (arith, one, lifetime-lt rec.cnt h))
    ∙ ap (λ c. record rec { cnt = c }) (ap (λ c. lifetime c n) one ∙ lifetime_next rec.cnt n)

-- A record that gt2_menu_record_init has set up stays parked at -1 through every bump.
pub record_init_parked :
    (n : ℕ) (rec : MenuRec) (tpl : Bytes) → (bumps n (record_init rec tpl)).cnt ≡ 0xFFFF
unfolding record_init
record_init_parked n rec tpl =
    ap (λ (r : MenuRec). r.cnt) (bumps-lifetime n (record_init rec tpl) (omega arith)) ∙ parked n
  where
    parked : (n : ℕ) → lifetime 0xFFFF n ≡ 0xFFFF
    parked n = ground arith
