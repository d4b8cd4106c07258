-- ===== src/Cd/Opened.antt =====
-- What gt2_cd_open leaves in a handle: the file, and the flavour of the dump by its size.
use gt2_recomp.Prelude.{ℕ, ◌≡◌, refl, Bool, true, false, Option, none, some, ok, arith}
use gt2_recomp.Cd.{File, Cd, sized, open_cd, is_raw_size}

-- The handle of a file, whose size is known.
pub record Opened (f : File) (cd : Cd) : Type 0 where
  pub size : ℕ
  pub told : f.tell ≡ some size
  pub cd_is : cd ≡ record { file = f; raw = is_raw_size size }

sized-Opened :
    (f : File) (granted : Bool) (o : Option ℕ) (cd : Cd)
    → f.tell ≡ o
    → sized f granted o ≡ ok cd
    → Opened f cd
unfolding sized
sized-Opened f granted none cd t h = cc h
sized-Opened f false (some n) cd t h = cc h
sized-Opened f true (some n) cd t h = record { size = n; told = t; cd_is = cc h }

pub open_cd-Opened :
    (f : File) (granted : Bool) (cd : Cd) → open_cd (some f) granted ≡ ok cd → Opened f cd
unfolding open_cd
open_cd-Opened f granted cd h = sized-Opened f granted f.tell cd refl (ground (arith, h))

pub Opened-unique : (f : File) (a b : Cd) → Opened f a → Opened f b → a ≡ b
Opened-unique f a b p q =
    let same : p.size ≡ q.size = cc (p.told, q.told) in cc (p.cd_is, q.cd_is, same)
