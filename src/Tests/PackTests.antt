-- ===== src/Tests/PackTests.antt =====
-- Repacking the sample volume.
use gt2_recomp.Prelude.{
  ℕ, ◌+◌, ◌-◌, ◌<◌, ◌≡◌, refl, true, some, none, ok, err, arith, List, [], ◌∷◌,
}
use gt2_recomp.Bytes.{Bytes, zeros}
use gt2_recomp.Bytes.Laws.{IsByte}
use gt2_recomp.Vol.{Vol, inval, open_mem, handle_of, read_at}
use gt2_recomp.Vol.Source.{src}
use gt2_recomp.Vol.Parsed.{Parsed}
use gt2_recomp.Vol.Pack.{Replacement, pack_vol, rebuild, replacements_ok, sort, no_duplicate}
use gt2_recomp.Vol.Pack.Ascending.{find_rep}
use gt2_recomp.Vol.Pack.Layout.{sized_by, new_start}
use gt2_recomp.Vol.Pack.Rebuilt.{Rebuilt, Packable}
use gt2_recomp.Vol.Pack.RoundTrip.{pack_vol-Rebuilt}
use gt2_recomp.Vol.Pack.Reopen.{ReadsNew, pack-reopen}
use gt2_recomp.Vol.Pack.Identity.{pack-identity}
use gt2_recomp.Tests.Samples.{extent_vol, granted, extent-IsByte, extent-Parsed, extent-FitsImage}

-- file 2 in nine bytes instead of six
abbrev longer : List Replacement
longer = record { index = 2; data_ptr = some (λ k. 7 + k); size = 9 } ∷ []

own_Parsed : Parsed extent_vol.backend extent_vol
unfolding handle_of
own_Parsed = extent-Parsed

own-IsByte : IsByte (src extent_vol.backend)
unfolding handle_of
own-IsByte = extent-IsByte

longer-Packable : Packable extent_vol longer
unfolding handle_of new_start sized_by find_rep
longer-Packable = record {
  fits = extent-FitsImage;
  files = omega arith;
  table_first = omega arith;
  no_wrap = omega arith;
}

none-Packable : Packable extent_vol []
unfolding handle_of new_start sized_by find_rep
none-Packable = record {
  fits = extent-FitsImage;
  files = omega arith;
  table_first = omega arith;
  no_wrap = omega arith;
}

abbrev packed : List Replacement → Bytes
packed reps = elim (pack_vol extent_vol reps granted) [ ok out ↦ out.0 | err e ↦ zeros ]

packs_longer : pack_vol extent_vol longer granted ≡ ok (packed longer, 78)
unfolding pack_vol rebuild replacements_ok sort no_duplicate handle_of read_at
packs_longer = refl

packs_none : pack_vol extent_vol [] granted ≡ ok (packed [], 75)
unfolding pack_vol rebuild handle_of read_at
packs_none = refl

-- index 1 is the volume's own
refuses_table :
    pack_vol extent_vol (record { index = 1; data_ptr = none; size = 0 } ∷ []) granted ≡ err inval
unfolding pack_vol replacements_ok handle_of
refuses_table = refl

pack-reopen_example :
    (v' : Vol) × (open_mem (packed longer) 78 (λ n. true) ≡ ok v')
    × (v'.data_count ≡ extent_vol.data_count)
    × ((k : ℕ) → k < extent_vol.data_count - 3 → ReadsNew extent_vol v' longer (2 + k))
pack-reopen_example =
    pack-reopen extent_vol longer granted (packed longer) 78 own_Parsed longer-Packable
      (omega arith) packs_longer

pack_vol-Rebuilt_example : Rebuilt extent_vol longer (packed longer) 78
pack_vol-Rebuilt_example =
    pack_vol-Rebuilt extent_vol longer granted (packed longer) 78 longer-Packable packs_longer

pack-identity_example :
    (75 ≡ extent_vol.tbl (extent_vol.data_count - 1))
    × ((x : ℕ) → x < 75 → packed [] x ≡ src extent_vol.backend x)
pack-identity_example =
    pack-identity extent_vol granted (packed []) 75 own_Parsed own-IsByte none-Packable packs_none
