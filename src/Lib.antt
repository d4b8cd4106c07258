-- ===== src/Lib.antt =====
-- A verification library for the native port of the Gran Turismo 2 disc code, the C modules under
-- decomp/src with their headers under decomp/include/gt2.
--
-- The parts and where they are modelled:
--
-- * decomp/src/cd/cd.c reads 2048-byte sectors of a disc image that is either cooked (2048 bytes a
--   sector) or raw (2352 bytes, the payload at 24): Cd.antt has gt2_cd_open as `open_cd`,
--   gt2_cd_read_sector as `read_sector` and gt2_cd_pread as `pread`; Cd/Pread.antt has the theorems.
-- * decomp/src/vol/vol.c reads and repacks the GTFS volume at sector 473 of the image. Vol.antt has the
--   handle `Vol` (struct gt2_vol), its two backends, `read_at`, `parse_tables`, gt2_vol_open and
--   gt2_vol_open_mem, `file_range`, `find`, `read`, `tbl_entry` and `pread`. Vol/Walk.antt has the walks
--   over the entry table: `stat_path`, `find_path`, `read_path`, `list_dir` and `span`. Vol/Pack.antt
--   has gt2_vol_pack as `pack`, which opens the image and calls `pack_vol`.
-- * decomp/src/car/car.c indexes the cars of a volume. Car.antt has gt2_namehash as `namehash`,
--   gt2_weight_init as `weight_init`, gt2_car_index_build as `index_build`, gt2_car_find as `find` and
--   gt2_engine_parse as `engine_parse`; Car/Tables.antt has gt2_wheel_codec, gt2_wheel_build,
--   gt2_engine_build and gt2_car_logo_annotate without the prefixes.
-- * decomp/src/task/task.c has the boot tasks. Task.antt has the initialisers of the task memory, the
--   b3 phases in the order of gt2_task_boot_run as `b3`, gt2_task_b2_queue as `b2_queue` and
--   gt2_task_b2_complete as `b2_complete`. The request repeats the three words of the
--   descriptor. Task/Boot.antt has the tasks b4 to b6 and gt2_task_boot_run as `boot_run`, which calls
--   the car index, the course tables and the volume.
-- * decomp/src/mcd/mcd.c reads, formats and writes memory-card images. Mcd.antt has gt2_mcd_open as
--   `open_file`, gt2_mcd_open_mem as `open_mem`, gt2_mcd_header_ok as `header_ok`, gt2_mcd_file_count as
--   `file_count`, gt2_mcd_dir as `dir`, gt2_mcd_read as `read` and gt2_mcd_format as `format`;
--   Mcd/Store.antt has used_blocks, gt2_mcd_write as `write_file` and gt2_mcd_delete as `delete`. A card is
--   its image. The loops over links run on fuel, and 15 rounds are enough on a card without cycles.
-- * decomp/src/tim/tim.c reads and writes TIM images and the TXD dictionary. Tim.antt has the header
--   parser `tim_extent`, gt2_tim_validate as `validate`, gt2_tim_count as `count`, gt2_tim_info as
--   `info_at` and gt2_logo_find_tim as `logo_find_tim`; Tim/Pixels.antt has gt2_tim_decode as `decode`,
--   Tim/Encode.antt gt2_tim_encode as `encode`, Tim/Txd.antt gt2_txd_count and gt2_txd_get. The walks
--   run on fuel, at most two rounds more than bytes. Tim/Join.antt has gt2_gunzip_join as `gunzip_join`,
--   over the same `Zlib` as the overlays.
-- * decomp/src/dispatch/dispatch.c drives the menu: a mode byte selects one of the arms A to D. Dispatch.antt
--   has gt2_dispatch_run as `run`, gt2_dispatch_arm_run as `arm_run`, gt2_dispatch_wait as `wait`,
--   gt2_dispatch_sub_entry as `sub_entry`, gt2_dispatch_sync0 as `sync0` and gt2_dispatch_tail as `tail`.
--   A call works on a `Machine`, the blocks obj and task with the caller's context (Dispatch/Calls.antt);
--   the injected callbacks may change all of it, and the polling loops run on fuel. Dispatch/Ends.antt
--   describes how a call ends, by relations on machines.
-- * decomp/src/asset/asset.c loads the course tables. Asset.antt has gt2_crs_hash as `crs_hash`,
--   gt2_crsmap_build as `crsmap_build`, gt2_asset_window as `asset_window`, gt2_q2_cache_build as
--   `q2_cache_build`, gt2_crsinfo_parse as `crsinfo_parse` and gt2_crs_find as `crs_find`, over the
--   volume calls of Vol.antt and Vol/Walk.antt.
-- * decomp/src/iso/iso.c finds files in the disc's root directory. Iso.antt has gt2_iso_stat as `stat` and
--   gt2_iso_read as `iso_read`, with the scan over sectors and records as `scan_dir` and `scan_sector`.
-- * decomp/src/ovl/ovl.c reads the overlay container. Ovl.antt has gt2_ovl_open as `open_ovl`,
--   gt2_ovl_member_range as `member_range` and gt2_ovl_read_member as `read_member`. zlib is the record
--   `Zlib` of Inflate.antt, and `Decodes` states what the zlib manual says of inflate on an intact stream.
-- * decomp/src/boot/boot.c chains cd, vol and ovl. Boot.antt has gt2_boot_open as `boot_open`, which is
--   given what each of its two fopen calls returns, and gt2_boot_load_overlay as `load_overlay`.
-- * decomp/src/save/crc32.c has gt2_crc32: `crc32` of Save.antt, with its table and the flag that it is built.
-- * decomp/src/card/card.c runs one tick of the card driver. Card.antt has gt2_card_run as `run`, with a
--   definition for each lane of the event's bits; Card/Ticks.antt has the state block, the data window and
--   the injected callbacks, which may change all they reach. A result -n of rc_out is the number n.
-- * decomp/src/menu/menu.c has the menu records. Menu.antt has gt2_menu_record_init as `record_init`,
--   gt2_menu_counter_bump as `counter_bump`, the fixed-point helpers and the short path, Menu/Tick.antt
--   gt2_menu_emit_tick as `emit_tick`. The emitters are parameters; what is asked of them is
--   `Allots` of Menu/Arena.antt, and Tests/MenuTests.antt has it for those of render.
-- * decomp/src/render/render.c has the packet emitters: `emit` of Render.antt, over one native memory that
--   holds the arena and the frame, since the unaligned accesses depend on the addresses.
-- * decomp/src/spu/spu.c has the voices: gt2_spu_init_ex as `init_ex` and gt2_spu_wait_idle as `wait_idle`
--   of Spu.antt.
-- * Bytes.antt has what the sources use of memory: buffers, memcpy, memset, the little-endian words, C
--   strings and strcmp. Prelude.antt passes on the shared names, with the Boolean tests, the lists and
--   the results of calls.
--
-- The parts interact by calls: vol reads through cd, or through a borrowed blob, and the car index
-- lists a directory of a volume, the b2 task reads the offset table of one, and the boot task composes
-- the car index, the course tables and the task initialisers. ovl finds its container by iso, which
-- reads through cd, and the boot opens cd, vol and ovl in turn. The menu tick is given emitters such
-- as those of render.
--
-- How C is written here. A buffer is a function from offsets to bytes, and a function that writes a
-- buffer returns the new one. A call that returns a status and out parameters returns an `Outcome`:
-- `ok` with the out parameters, or `err` with the status. Numbers are natural, and where a u32 can
-- wrap the remainder by 2 ^ 32 is written out. A signed value is its word where its sign decides
-- (card, menu). An argument that the C code tests for NULL is not optional here, unless the test
-- depends on other data. What stdio answers is a record `File`, and whether each malloc succeeds is a
-- function `Alloc` from the allocation's number in the call. Frees have no counterpart.
--
-- Loops and their bounds: the loop of gt2_cd_pread runs on fuel, and as many rounds as bytes are
-- enough since each takes one byte at least. The table parser runs GT2_VOL_DIR_CAP and entry_count
-- rounds, as the code does. The binary search of gt2_car_find runs on fuel; `none` is a search that
-- has not ended, `some none` its -1, and one round more than entries is enough for 2 ^ 31 of them. The scan of a directory has as much fuel as the directory has bytes, and that of
-- a sector 2048 rounds; each round takes a byte at least. The inflate loop is `none` without fuel, and
-- one call more than the stream's work is enough; its avail_out is a 32-bit word, as zlib's is. The wait of the sound unit has its own limit. The
-- loops of the walks and of the packer are structural.
--
-- Not modelled: the frees and closes, the status names, what a boot task that fails leaves of its
-- state, and decomp/src/host/host.c (counters). Neither is the recompiled build (src, runtime,
-- generated), which calls a runtime that is a submodule of the repository.
pub mod Asset
pub mod Boot
pub mod Bytes
pub mod Car
pub mod Card
pub mod Cd
pub mod Dispatch
pub mod Inflate
pub mod Iso
pub mod Mcd
pub mod Menu
pub mod Ovl
pub mod Prelude
pub mod Render
pub mod Save
pub mod Spu
pub mod Task
pub mod Tests
pub mod Tim
pub mod Vol
