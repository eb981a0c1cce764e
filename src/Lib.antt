-- ===== src/Lib.antt =====
-- Verification of PrincessIDE's core: what the IDE tells its user about a virtual machine's memory,
-- address translation and descriptor tables, what the emulator's monitor reports of them, why a run of it ended and what its serial lines report,
-- where an address lies in a program, the reader behind the hex view, the conversation with a debug
-- adapter, the diagnostics of a build, the chunks of a text stream, the command line, and the decoder of
-- the streams that an AI provider answers with.
--
-- The parts and their files:
--   GuestMem        crates/princess-bin/src/guestmem.rs. The trait `GuestMemory` is a record of its
--                   methods, which every client takes as an argument; `GuestRam` is the in-memory
--                   implementation, its `BTreeMap` a partial function. GuestMem/RoundTrip has the
--                   theorems, GuestMem/Words the little-endian value of bytes.
--   PageTable       crates/princess-bin/src/pagetable.rs. Registers (`Cr0`, `Cr3`, `Cr4`, `Efer`),
--                   Entry (`Level`, `PageTableEntry`, `LeafSize`), Canonical (`canonicality`), Walk
--                   (`Walker::new`, `Walker::walk`, the views of `PageTableWalk`) and Explain
--                   (`walk_or_explain`, `partial_path`) hold the code; the other files the proofs.
--                   Translation states the translation of the x86_64 manual as a relation on raw
--                   entries, reserved bits aside, which the walk is compared with; Reserved the one that
--                   faults on reserved bits, which the walk does not look at.
--   Descriptor      crates/princess-bin/src/descriptor.rs. Decode (one descriptor), Gdt
--                   (`Gdt::read`, selectors), Idt (`Tss64::read`, `Idt::read`, `read_tables`) hold
--                   the code; Fields, Slots, Pairs, Total, Gates and TaskState the proofs.
--   Sse             crates/princess-ai/src/sse.rs. The decoder's state is its buffer and its flag;
--                   `push` and `finish` return events and the new state. Frames and Chunks hold
--                   the proofs.
--   Exit            crates/princess-run/src/exit.rs and `classify_exit` of
--                   crates/princess-core/src/traits.rs, with Attribution on the evidence.
--   Hex             crates/princess-bin/src/hex.rs. `HexReader` with its cache of windows; the file is
--                   an argument of each operation, so it may change between two of them. Rows
--                   holds the rendered rows, Cache and Slice compare a read with the file, Bound and
--                   History follow the size of the cache through sequences of calls, a step relation.
--   Utf8            what `from_utf8` and `from_utf8_lossy` make of bytes; Sequences, Valid and Cuts are about
--                   the characters of valid bytes and of their parts.
--   Framing         crates/princess-debug/src/framing.rs. `encode_frame` and `decode_frame`, and
--                   `FrameReader` in Reader, over a list of reads; Decimal, Header, RoundTrip and
--                   Partial hold the proofs.
--   Transport       crates/princess-debug/src/transport.rs. The early responses, the buffer of events
--                   and the waits for a response or an event; Responses, Answered, Events, Named and
--                   Closed hold the proofs.
--   Monitor         crates/princess-bin/src/monitor.rs. Lines (`lines_with_offsets`, `ParseError` and the
--                   loop that the text parsers share), Tables (`parse_info_mem`, `parse_info_tlb`,
--                   `parse_info_cpus`), Registers (`parse_info_registers`), Granularity
--                   (`resolve_granularities`) and Qmp hold the code. Blame follows an error to its line;
--                   Printed, TlbRows, MemRows, Pairs and Control read back what QEMU prints; Boundary
--                   is about the panic of `split_at`; Walking starts a walk from a parsed report,
--                   by PageTable/FromRegisters (`walk_from_registers`).
--   Stream          crates/princess-core/src/stream.rs. `Utf8Chunker` and sequences of calls of it; Whole
--                   and Conserved hold the proofs.
--   Paths           `normalize` of crates/princess-core/src/config.rs, with the parts of `std::path` that it
--                   needs; Canonical, Cancels and Idempotent are about its results.
--   Diagnostics     crates/princess-build/src/diagnostics.rs. The forms of a line, and in Parser
--                   `DiagnosticParser`; Located and Marked read back a compiler's line, Distinct is
--                   about `dedup`.
--   View            crates/princess-view/src/hex.rs. `HexBuilder` and its rows, with HexRows on them.
--   Arguments       crates/princess-cli/src/args.rs. `parse` and its options; Inline compares the two
--                   spellings of a value.
--   Str             the methods of `str` that the parsers call, on code points, with Prefix, Trim and
--                   Words on them.
--   Serial          crates/princess-run/src/serial.rs. Parse (one line) and Observer
--                   (`SerialObserver::feed`) hold the code; Verdict and Gate follow the verdict on a page
--                   fault, Verbatim the address of a fault, Tally the counts, and Hexadecimal the text
--                   that `hex` of crates/princess-cli/src/symbolize.rs gives an address.
--   Symbol          crates/princess-symbol/src/symbol.rs. `coarse_location` with Coarse, and
--                   `walk_frame_pointer_chain` with Chain, which states the chain in memory as a
--                   relation.
--   ErrorCode       crates/princess-core/src/error.rs. The codes that failures carry.
--   Bits            shifts, masks and complements of 64-bit words, and the arithmetic they stand for.
--   Prelude         names of the libraries passed on, tests on numbers, lists, `Result`.
-- Walks and tables read the guest through `GuestMemory` only, so the theorems hold for any memory
-- that a stub or a simulator serves.
--
-- The model. Words are natural numbers, with the width written out where the source shifts or
-- casts. An addition of addresses is a plain sum: an overflow, which panics in a debug build, is
-- not modelled, but in View, in the end of `virtual_range` and in the products of the hex reader's
-- sizes, which are taken modulo 2 ^ 64 as in a release build. `?` and `map_err` are the monad of
-- `Result`; a method that mutates returns the state that it leaves, also where it fails.
-- `unwrapped_none` and `panicked` are the panics of `expect` and of an index out of range. Loops
-- are structural: the walk on the list of levels (five at most), the tables on the slots and gates
-- that the limit leaves, the copies on the bytes that are left. Three loops have fuel: that of
-- `push`, the length of its buffer, as each round takes at least two bytes off it; that of
-- `read_range`, the bytes that are wanted, as each round serves at least one; and `chunks`, the
-- number of bytes, as each chunk takes at least one. The frame-pointer walk recurses on the frames
-- that may still be pushed, its own limit. A printed length has at most 20 digits, as a `usize`
-- has.
-- In Sse, `String::from_utf8_lossy` and `char::is_whitespace` are a record `Text`, of which nothing
-- is assumed. A file is what `pread` and `metadata` answer. The waits of the transport run on a
-- list of turns, what `recv_timeout` gives until the deadline, so a theorem on them holds for every
-- ordering of messages and timeouts. The loop of a monitor parser goes over the lines with the
-- report so far as its state; what a line makes of it is an `Outcome`, and the parser's answer a
-- `Reply`, with the panic as one of its cases. The `BTreeMap` of registers is an association list,
-- and the message of a `ParseError` a case of `Reason` with the texts that it quotes. The DWARF
-- line lookup, the demangler, the JSON parser and the guest's memory are arguments.
--
-- Not modelled: the texts of `Display`, `Debug`, `path_summary` and `describe_selector`; the texts
-- that `exit.rs` searches and prints; the JSON of a stream's events and of a request; the path and
-- the texts of errors of the hex reader; the process, the thread and the shutdown of the transport;
-- the copy of the serial observer in the command line; the ELF and DWARF readers; `HexReadError` of
-- the hex view; `MonitorSnapshot` and the reply to query-cpus-fast; the configuration but for
-- `normalize`; the other crates and the desktop application, which run tools, speak protocols or
-- present what these parts compute.
mod Prelude
pub mod Bits
pub mod GuestMem
pub mod PageTable
pub mod Descriptor
pub mod Sse
pub mod Exit
pub mod ErrorCode
pub mod Hex
pub mod Transport
pub mod Str
pub mod Serial
pub mod Symbol
pub mod Utf8
pub mod Framing
pub mod Monitor
pub mod Stream
pub mod Paths
pub mod Diagnostics
pub mod Arguments
pub mod View
