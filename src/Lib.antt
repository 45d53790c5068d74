-- ===== src/Lib.antt =====
-- Tsanalyze reads an MPEG transport stream and reports what it carries: `ts_process` cuts the
-- input into packets, `ts_proc` takes a packet apart and collects sections and PES packets per
-- PID, the filters give what is whole to the parser of its table, and the parsers fill the
-- tables that the program prints at the end.
--
-- Files and the code they model (paths from the repository's root):
-- - Base: what the other files share. Words with their wrap-around, lists as arrays, `bit` and
--   the laws of the bitwise operations, and memory: a pointer is the list of the bytes from the
--   one it points at to the end of its object, and `none` is a read or write outside the object.
--   Where the code frees blocks or keeps several pointers to one, `Blocks` has a heap of numbered
--   blocks.
-- - Bitmap (src/utils.c): the bitmaps of the PIDs and of the sections of a table.
-- - Crc32 (src/crc32.c): the checksum of the sections.
-- - Filter (src/filter.c): the registry of the filters, a function of the PID. The slots of a PID
--   are a list, `num` is its length, a pointer to a slot is a PID and an index. A callback acts
--   on the state of the whole program, so `Filter.Proc` takes that state as a parameter, with a
--   function that reads the registry from it; `none` is a callback that faults.
-- - Table (src/table.c): `Register` registers the filter of a table, `Ops` the PIDs that carry
--   program maps and other sections, `Version` compares versions, `Startup` has the filters of
--   the start and the end, and `Header` has `parse_section_header`, which stores the sections of
--   a table in blocks of the heap until the table is whole. `Pat` is `parse_pat`, whose list of
--   programs `Pat.View` reads as a map, `Pmt` is `parse_pmt` with what it registers, and `Cat`
--   has the two tables that are descriptors only. A callback is the name of a function.
-- - Dvb (src/dvb_si.c, and their callbacks of src/table.c): the tables of the DVB service
--   information. `Network` has parse_nit and parse_bat, `Service` parse_sdt, `Event` parse_eit,
--   `Time` the two tables of the time, and `Entries` the loop that the first three share.
-- - Psip (src/atsc_psip.c): the tables of the ATSC program and system information. `Parse` has the
--   call of `parse_section_header` and the loop over entries that the parsers share, `Text` the
--   strings, `Guide` parse_mgt, `Channel` parse_vct, `Event` parse_atsc_eit and parse_ett, `Clock` parse_stt,
--   `Rating` parse_rrt, `Change` the tables of directed channel changes, and `Proc` and `Init` the
--   callback and the start.
-- - Pes (src/pes.c): the registry of the elementary streams, `Header` and `Extension` with the
--   fields of a packet's header in their order, and `Packet` with `parse_pes_packet`. The parsers
--   of the data, with what they keep, are parameters.
-- - Ps (src/ps.c): program streams. `Pack` has the headers of a pack and the loop over the packs,
--   `Map` the program stream map, `Directory` the directory packet.
-- - Scte (src/scte.c): which PIDs carry splice sections. `Command` has the parsers of the commands
--   and `Info` that of a section. A record holds what a section writes; what an earlier one left
--   in the union of the commands is not kept.
-- - Teletext (src/teletext.c): the Hamming 8/4 code; Pages: the pages of the data.
-- - Descriptor (src/descriptor.c): the loop over the descriptors of a table; the table of their
--   parsers is a parameter.
-- - Ts (src/ts.c): `Section` collects sections and PES packets, `Probe` finds the packet size,
--   `Adaptation` reads the clock references, `Packet` is `ts_proc` with what it keeps per PID.
--   The tables and streams behind it are a parameter, with the four functions `ts_proc` asks of
--   them. `Process` is `ts_process` with the effect of `ts_proc` as a parameter.
-- - Input (src/fileio.c): the reads of a file, block by block; `mmap` is a parameter.
--
-- `malloc` and `realloc` are parameters: the block they give, or whether they give one. A
-- block of the heap holds any bytes. `int` is taken to be wide enough for the sums it holds.
-- The 33-bit field of a clock reference is taken at its declared type, `uint64_t`, in
-- arithmetic.
--
-- Bounds and fuel: the scan of `filter_proc` reads the number of slots again in each round,
-- since a callback may register filters; it has one round more than `NUM_FILTER_MAX` slots
-- need. The loop over descriptors has a round for each byte, and each descriptor takes at
-- least two; that over the streams of a program map has a round for each byte, and each stream
-- takes at least five, as do those over the entries of the DVB tables; those of parse_eit and
-- of the splice descriptors have a round for each byte of their block, and each takes at least
-- six. `check_es_pid` has the 8159 rounds of its loop. The loop of parse_ps has fuel, one
-- round for each pack, as a wrapped length may send it back. The loop of parse_stt has fuel.
-- The inner loop of `ts_process` has a round for each byte of a block, of which each packet
-- takes at least one; the outer loop has fuel, one round for each block. All other loops are
-- structural.
--
-- Not modelled: the parsers of most descriptors, the data of subtitles and most of teletext's,
-- the other input sources, the options and all output.
pub mod Base
pub mod Bitmap
pub mod Crc32
pub mod Descriptor
pub mod Dvb
pub mod Filter
pub mod Input
pub mod Pes
pub mod Ps
pub mod Psip
pub mod Scte
pub mod Table
pub mod Teletext
pub mod Ts
