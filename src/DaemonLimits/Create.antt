-- ===== src/DaemonLimits/Create.antt =====
-- `daemon_limits_create`: the sizes of the registry, its one mapping, and the fresh registry.
pub mod Fits
use fast_sync.Prelude.{
  ℕ, zero, suc, ◌+◌, ◌-◌, ◌*◌, ◌^◌, Bool, true, false, ◌&&◌, ◌||◌, Option, some, bit_and, ltb,
  guard, ◌>>◌, if◌then◌else◌, replicate,
}
use fast_sync.HostTable.{empty_bucket}
use fast_sync.DaemonLimits.{DaemonLimitRegistry, free_slot}

-- `n` up to the next multiple of a power of two, on 64 bits.
unfoldable pub round_up : ℕ → ℕ → ℕ
round_up n align = bit_and (n + align - 1) (2 ^ 64 - align)

-- The loop of `next_pow2`, a round of fuel for each doubling; `size_t` has 64.
unfoldable pub pow2_loop : ℕ → ℕ → ℕ → ℕ
pow2_loop zero p n = p
pow2_loop (suc fuel) p n = let rest = pow2_loop fuel (p * 2) n in if ltb p n then rest else p

unfoldable pub next_pow2 : ℕ → ℕ
next_pow2 n = pow2_loop 64 1 n

unfoldable pub clamp : ℕ → ℕ → ℕ → ℕ
clamp low high n =
    let raised = if ltb n low then low else n in if ltb high raised then high else raised

-- 16, 65536 and 256 are `DAEMON_LIMITS_MIN_SLOTS`, `DAEMON_LIMITS_MAX_SLOTS` and
-- `DAEMON_LIMITS_MAX_MODULES`, and the second 65536 below `DAEMON_LIMITS_MAX_HOST_SLOTS`.
unfoldable pub slot_count : ℕ → ℕ
slot_count max_slots = clamp 16 65536 max_slots

unfoldable pub module_count : ℕ → ℕ
module_count modules = clamp 1 256 modules

unfoldable pub host_slots : ℕ → ℕ → ℕ → ℕ → ℕ
host_slots max_slots per_host_cap lockout_threshold lockout_duration_sec =
    if ltb 0 per_host_cap || (ltb 0 lockout_threshold && ltb 0 lockout_duration_sec)
    then next_pow2 (clamp 64 65536 (slot_count max_slots * 4))
    else 1

-- 120 is the size of `DaemonLimitRegistry` on a 64-bit host.
abbrev pub header : ℕ
header = round_up 120 16

unfoldable pub map_size : ℕ → ℕ → ℕ → ℕ
map_size slots modules hosts =
    header
    + round_up (slots * 4) 16 * 4
    + round_up (modules * 4) 16
    + round_up (hosts * 8) 16
    + round_up (hosts * 4) 16 * 2
    + round_up (hosts * 8) 16 * 2
    + 16

-- Where the arrays begin, from the start of the mapping.
pub record Layout : Type 0 where
  pub slot_state : ℕ
  pub slot_pid : ℕ
  pub slot_module : ℕ
  pub slot_host : ℕ
  pub module_active : ℕ
  pub host_key : ℕ
  pub host_active : ℕ
  pub host_fail : ℕ
  pub host_until : ℕ
  pub host_last_use : ℕ

-- The mapping starts at the address `map`; the offsets follow the cursor.
unfoldable pub layout : ℕ → ℕ → ℕ → ℕ → Layout
layout map slots modules hosts =
    let slot_pid = header + slots * 4 in
    let slot_module = slot_pid + slots * 4 in
    let slot_host = slot_module + slots * 4 in
    let module_active = slot_host + slots * 4 in
    let host_key = round_up (map + (module_active + modules * 4)) 16 - map in
    let host_active = host_key + hosts * 8 in
    let host_fail = host_active + hosts * 4 in
    let host_until = round_up (map + (host_fail + hosts * 4)) 16 - map in
    record {
      slot_state = header;
      slot_pid = slot_pid;
      slot_module = slot_module;
      slot_host = slot_host;
      module_active = module_active;
      host_key = host_key;
      host_active = host_active;
      host_fail = host_fail;
      host_until = host_until;
      host_last_use = host_until + hosts * 8;
    }

abbrev pub fresh : ℕ → ℕ → ℕ → ℕ → ℕ → DaemonLimitRegistry
fresh max_slots modules per_host_cap lockout_threshold lockout_duration_sec = record {
  per_host_cap = per_host_cap;
  lockout_threshold = lockout_threshold;
  lockout_duration_sec = lockout_duration_sec;
  host_full_warn = 0;
  slots = replicate (slot_count max_slots) free_slot;
  module_active = replicate (module_count modules) 0;
  hosts =
      replicate (host_slots max_slots per_host_cap lockout_threshold lockout_duration_sec)
        empty_bucket;
}

-- `mmap` grants so many bytes or not.
unfoldable pub create : (ℕ → Bool) → ℕ → ℕ → ℕ → ℕ → ℕ → Option DaemonLimitRegistry
create mmap max_slots modules per_host_cap lockout_threshold lockout_duration_sec = do
  let hosts = host_slots max_slots per_host_cap lockout_threshold lockout_duration_sec
  guard (mmap (map_size (slot_count max_slots) (module_count modules) hosts))
  some (fresh max_slots modules per_host_cap lockout_threshold lockout_duration_sec)
