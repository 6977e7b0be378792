-- ===== src/Lib.antt =====
-- FastSync, a file synchronizer with a client and a server in C (src/client, src/server,
-- src/shared): models of its components and proofs of what makes them correct.
--
-- Prelude: tests on numbers, lists as arrays and byte buffers, bit operations, words in memory.
-- A C buffer is a `List ℕ` of bytes, an array with its count field is a list, a null result is
-- `none`, and a pointer argument is one that is not null. Freeing memory and logging are left out.
--
-- Delta models src/shared/delta.c and delta.h, the block-level delta transfer:
--   Adler: `delta_adler32` (`adler32`) and the rolling update (`roll`);
--   Sign: `delta_signature_create_seeded`;
--   Index: `delta_build_index` and `delta_find_match`, with `Index` for the three parts of the
--     index's one allocation;
--   Compute: `delta_compute_seeded`, whose loop variables are the record `State`, with
--     `ensure_capacity` and `flush_literal`. The loop runs on one round of fuel for each byte of the
--     new file and one more; every round moves on by a byte at least;
--   Apply: `delta_apply`;
--   Wire: `delta_signature_serialize`, `delta_serialize` and their inverses, on little-endian hosts;
--   Transfer: `delta_should_attempt`, `delta_is_worthwhile`, and how `send_delta` of
--     src/client/client_send.c and `receive_delta_file` of src/shared/incremental_check.c use the
--     rest, on a session without compression, metadata and extended attributes.
-- `Env` stands for what delta.c takes from elsewhere: the hash XXH32, the allocator (a request of so
-- many bytes is granted or refused) and the contents of memory that was not yet written.
--
-- Queue models src/shared/queue.c, the growing ring buffer between the pipeline's threads. The three
-- multithreaded calls are critical sections that go into `cnd_wait` or return, with or without a
-- `cnd_signal` (`Outcome`). Threads has the runs of any number of threads as the relation `Reach`, with
-- the numbers of threads that wait and that were woken at each of the two condition variables; a thread
-- that was woken takes the mutex again at any later step, and threads may be woken without a signal.
-- `Memory` stands for `malloc`. `queue_pop` computes `rear - 1 + capacity` in an `int`; where the sum
-- passes its range, which takes more than 2 ^ 30 slots, `pop` has no result. `queue_destroy` and the
-- item destroyer release memory and are left out.
--
-- Chmod models src/shared/chmod.c, the `--chmod` parser: `Clause` has the variables that a comma
-- resets, `scan` is the loop, by recursion on the string, and the umask is an argument.
--
-- StringSet models the hash set of strings in src/shared/utils.c (`StrHashSet`) with linear probing.
-- A probe runs on fuel, one slot of the table each; on a well-formed table (`IsTable`), where a
-- quarter of the slots is empty, it ends. `Services` stands for XXH64 and `calloc`.
--
-- StopCondition models src/shared/stop_condition.c: Minutes is `--stop-after`, Deadline the condition
-- that the loops test; `parse_relative` and `parse_clock_time` are two of the three forms of
-- `--stop-at`, with `Zone` for `localtime_r` and `mktime`. `parse_time_rsync` is not modelled.
--
-- ArrayList models src/shared/array_list.c, and the allocation limit of src/shared/protocol.c that
-- it asks (`alloc`). `array_list_to_array`, a copy into memory of the caller, is left out.
--
-- FileList models the entries of a `--files-from` list in src/shared/file_list.c: `string_list_add`
-- and `normalize_entry`, whose loop over the slashes is `rebuild` over the parts that `segments`
-- gives; Scope has `file_list_dir_in_scope`, with the hash set of StringSet for the exact paths of the
-- index. `file_list_affects` and the reading of the file are not modelled.
--
-- HostTable models the per-source table of src/shared/daemon_limits.c: the hash of an address, the
-- probes of `host_lookup` and `host_intern`, and the eviction of buckets, with `Net` for `inet_pton`.
-- DaemonLimits models the rest of that file, the registry of connections that the daemon's processes
-- share: the slots and the caps, and in Auth the lockout after failed logins; Calls has the runs, and
-- Create the sizes and the mapping, with an argument for `mmap`. A call runs from its start to its end
-- without another in between, so the second pass of `host_intern`, which follows a lost
-- compare-and-swap, is not modelled. A doubling of `next_pow2` takes a round of fuel, and a `size_t`
-- has no more than 64. `daemon_limits_destroy` and the text of the warning are left out.
--
-- Glob models `glob_match` of src/shared/utils.c: `fill_rows` is the loop over the pattern and
-- `fill_row` the loops over the string, on the four rows that the code keeps; `Scratch` stands for the
-- memory of the rows. `Matches` states by rules what a pattern matches.
--
-- Filter models src/shared/filter.c: Modifiers and Syntax have the rules' syntax, Files merge files
-- and per-directory files. `World` stands for `fopen` with the lines that a file gives, and for the
-- allocator. The levels of merge files are recursion on the levels that are left, 17 at depth 0.
-- Lists has the lists of the command line and of a directory (`read_dir_filters` of
-- src/client/scanner_filter.c). The texts of errors, and whether a file was there, are left out.
pub mod Prelude
pub mod Delta
pub mod Queue
pub mod Chmod
pub mod StringSet
pub mod StopCondition
pub mod ArrayList
pub mod FileList
pub mod HostTable
pub mod DaemonLimits
pub mod Glob
pub mod Filter
