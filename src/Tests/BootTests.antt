-- ===== src/Tests/BootTests.antt =====
-- A boot over a volume with one car, one course and one transfer.
use gt2_recomp.Prelude.{
  ℕ, zero, suc, ◌+◌, ◌-◌, ◌^◌, ◌≤◌, ◌≡◌, refl, true, Option, none, some, List, [], ◌∷◌, Outcome, ok,
  arith, ◌==◌, if◌then◌else◌, get_or,
}
use gt2_recomp.Bytes.{zeros, str_eq}
use gt2_recomp.Vol.{Vol, Slot, blob, vol_base, file_range, pread, read_abs, read_at, tbl_entry}
use gt2_recomp.Vol.Source.{FitsImage}
use gt2_recomp.Vol.Walk.{list_dir, stat_path, span}
use gt2_recomp.Car.{find, index_build, namehash}
use gt2_recomp.Car.Tables.{logo_annotate, logo_files, logo_round, logo_skipped, logo_walk}
use gt2_recomp.Asset.{
  crsmap_build, map_of_listing, skip_leading, hash_files, asset_window_cached, q2_cache_build, pin,
  asset_window, window_of, or_status, crsinfo_parse, has_magic, second_next,
}
use gt2_recomp.Task.{TaskStatus, GatherSrc, b2_queue, b2_complete}
use gt2_recomp.Task.Boot.{
  BootState, boot_rest, boot_run, boot_cars, boot_courses, boot_deposit, mapped, padded,
  stored_cars,
}
use gt2_recomp.Task.Boot.Ends.{boot_run_ends}
use gt2_recomp.Task.Boot.Booted.{HasCourses, HasDeposit, boot_run-HasCourses}

abbrev slot : ℕ → ℕ → List ℕ → Slot
slot next flags name = record { date = 0; next = next; flags = flags; name = name }

abbrev boot_slots : List Slot
boot_slots =
    slot 6 1 (b'c' ∷ b'a' ∷ b'r' ∷ b'o' ∷ b'b' ∷ b'j' ∷ [])
    ∷ slot 7 1 (b'c' ∷ b'a' ∷ b'r' ∷ b'l' ∷ b'o' ∷ b'g' ∷ b'o' ∷ [])
    ∷ slot 9 1 (b'c' ∷ b'r' ∷ b's' ∷ b'm' ∷ b'a' ∷ b'p' ∷ [])
    ∷ slot 10 1 (b'r' ∷ b'e' ∷ b'p' ∷ b'l' ∷ b'a' ∷ b'y' ∷ [])
    ∷ slot 2 0 (b'C' ∷ [])
    ∷ slot 3 128 (b'I' ∷ [])
    ∷ slot 2 128 (b'A' ∷ [])
    ∷ slot 2 0 (b'A' ∷ [])
    ∷ slot 2 128 (b'B' ∷ [])
    ∷ slot 2 128 (b'A' ∷ [])
    ∷ slot 2 0 (b's' ∷ b'c' ∷ b'e' ∷ b'a' ∷ b'.' ∷ b'0' ∷ b'0' ∷ b'0' ∷ [])
    ∷ slot 4 128 (b's' ∷ b'c' ∷ b'e' ∷ b'a' ∷ b'.' ∷ b'9' ∷ b'9' ∷ b'9' ∷ [])
    ∷ []

-- file 2 is the CRS window, file 3 the transfer
abbrev boot_vol : Vol
boot_vol = record {
  backend = blob (λ k. get_or (b'C' ∷ b'R' ∷ b'S' ∷ 0 ∷ 0 ∷ 0 ∷ 1 ∷ 0 ∷ []) (k - 2048) 0) 8192;
  data_count = 5;
  entry_count = 12;
  tbl = λ i. get_or (0 ∷ 0 ∷ 2048 ∷ 4096 ∷ 6244 ∷ 6244 ∷ []) i 0;
  names = [];
  slots = boot_slots;
}

boot_vol_fits : (i : ℕ) → i ≤ 5 → vol_base + boot_vol.tbl i ≤ 2 ^ 32 - 1
boot_vol_fits zero h = omega arith
boot_vol_fits (suc zero) h = omega arith
boot_vol_fits (suc (suc zero)) h = omega arith
boot_vol_fits (suc (suc (suc zero))) h = omega arith
boot_vol_fits (suc (suc (suc (suc zero)))) h = omega arith
boot_vol_fits (suc (suc (suc (suc (suc zero))))) h = omega arith
boot_vol_fits (suc (suc (suc (suc (suc (suc i)))))) h = absurd (omega arith)

boot_vol-FitsImage : FitsImage boot_vol
boot_vol-FitsImage = record { within = boot_vol_fits }

-- `n` paths from cell `i` on: cell 6 names the course file and cell 247 the transfer
abbrev paths_from : ℕ → ℕ → List (Option (List ℕ))
paths_from zero i = []
paths_from (suc n) i =
    (if i == 6 then some (b'C' ∷ []) else if i == 247 then some (b'I' ∷ []) else none)
    ∷ paths_from n (i + 1)

abbrev empty_state : BootState
empty_state = record {
  cars = λ k. record { hash = 0; index = 0; z = 0 };
  car_count = 0;
  logo_hits = 0;
  crsmap = [];
  crsmap_first = 0;
  cache = [];
  crs_window = zeros;
  crs_window_len = 0;
  crs_recs = [];
  task_mem = zeros;
  b4_area = zeros;
  bounds = (0, 0);
  flag_cell = 0;
  s6_area = zeros;
  span = 0;
  b2_heap = 0;
  b2_req = record { dst = 0; desc_len = 0; tag = 0; tbl_idx = 0; lba = 0; xfer_len = 0 };
  b2_deposit = zeros;
  b2_deposit_len = 0;
}

abbrev no_sources : GatherSrc
no_sources = record { b0 = zeros; b1 = zeros; b2 = zeros; b3 = zeros; w = zeros }

abbrev outcome : Option (Outcome TaskStatus BootState)
outcome = boot_run empty_state boot_vol zeros no_sources (paths_from 248 0) (λ n. true)

abbrev booted : BootState
unfolding boot_run
booted = elim outcome [ some (ok t) ↦ t | _ ↦ empty_state ]

boots : outcome ≡ some (ok booted)
unfolding boot_run boot_rest boot_cars mapped index_build list_dir stat_path str_eq logo_annotate
    logo_files logo_walk boot_courses crsmap_build map_of_listing skip_leading hash_files
    asset_window_cached padded q2_cache_build pin asset_window window_of or_status file_range pread
    read_abs read_at crsinfo_parse has_magic b2_queue tbl_entry span boot_deposit b2_complete
    second_next logo_round logo_skipped find namehash stored_cars
boots = refl

boot_run-HasCourses_example :
    HasCourses boot_vol booted.cache booted.crs_window booted.crs_window_len booted.crs_recs
    × HasDeposit boot_vol booted.b2_req.tbl_idx booted.b2_deposit_len booted.b2_deposit
boot_run-HasCourses_example =
    boot_run-HasCourses empty_state boot_vol zeros no_sources (paths_from 248 0) (λ n. true) booted
      boot_vol-FitsImage boots

boot_run_ends_example :
    (res : Outcome TaskStatus BootState) × (boot_run empty_state boot_vol zeros no_sources
        (paths_from 248 0)
        (λ n. true)
      ≡ some res)
boot_run_ends_example =
    boot_run_ends empty_state boot_vol zeros no_sources (paths_from 248 0) (λ n. true)
