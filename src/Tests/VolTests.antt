-- ===== src/Tests/VolTests.antt =====
-- The table parser and the reads by name over the sample volume.
use gt2_recomp.Prelude.{◌≡◌, refl, true, ok, err, arith}
use gt2_recomp.Bytes.{Bytes, zeros, str_eq}
use gt2_recomp.Vol.{
  Vol, Name, blob, bad_magic, truncated, read_at, parse_tables, read, file_range, read_abs,
}
use gt2_recomp.Vol.Source.{src, HoldsFile}
use gt2_recomp.Vol.Parsed.{Parsed, Parseable, parse_tables-Parsed, parse_tables-total}
use gt2_recomp.Vol.Walk.Files.{FirstNamed, read-FirstNamed}
use gt2_recomp.Tests.Samples.{
  extent_bytes, extent_backend, extent_vol, granted, extent_parses, extent-IsByte, tree,
  tree-FitsImage, name_b,
}

parse_tables-Parsed_example : Parsed extent_backend extent_vol
parse_tables-Parsed_example =
    parse_tables-Parsed extent_backend granted extent_vol extent-IsByte extent_parses

extent-Parseable : Parseable extent_backend
unfolding src
extent-Parseable = record {
  head = omega arith;
  magic = refl;
  nonempty = omega arith;
  room = omega arith;
  table = omega arith;
}

parse_tables-total_here : (v : Vol) × (parse_tables extent_backend (λ n. true) ≡ ok v)
parse_tables-total_here = parse_tables-total extent_backend extent-Parseable

wrong_magic : parse_tables (blob zeros 64) granted ≡ err bad_magic
unfolding parse_tables read_at
wrong_magic = refl

short_table : parse_tables (blob extent_bytes 30) granted ≡ err truncated
unfolding parse_tables read_at
short_table = refl

abbrev got : Bytes
unfolding read str_eq file_range read_abs read_at
got = elim (read tree name_b true) [ ok (buf, size) ↦ buf | err e ↦ zeros ]

reads_b : read tree name_b true ≡ ok (got, 5)
unfolding read str_eq file_range read_abs read_at
reads_b = refl

read-FirstNamed_here : (n : Name) × FirstNamed tree.names name_b n × HoldsFile tree n.index got 5
read-FirstNamed_here = read-FirstNamed tree name_b true got 5 tree-FitsImage reads_b
