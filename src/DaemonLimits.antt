-- ===== src/DaemonLimits.antt =====
-- src/shared/daemon_limits.c: the registry that the daemon's processes share. Each call runs without
-- a race; -1 is `none`, `time(NULL)` is an argument, and the counters are taken below 2 ^ 31: they
-- count connections since the last recompute. A cap, a threshold or a duration below 0 acts as 0.
pub mod Auth
pub mod Recount
pub mod Runs
pub mod Calls
pub mod Create
pub mod Counts
pub mod Covers
pub mod Entering
pub mod Sources
pub mod Refusals
pub mod Caps
pub mod Lockout
mod Tests
use fast_sync.Prelude.{
  ℕ, zero, suc, ◌+◌, ◌-◌, ◌*◌, ◌%◌, ◌^◌, List, [], ◌∷◌, Bool, true, false, not, ◌&&◌, ◌||◌, Option,
  none, some, ltb, leb, ◌==◌, if◌then◌else◌, guard, ◌>>◌, ◌>>=◌, length, get_or, modify,
}
use fast_sync.HostTable.{Bucket, empty_bucket, active_at, Net, host_hash, intern_key, host_lookup}

pub data SlotState : Type 0 where
  free : SlotState
  claimed : SlotState
  registered : SlotState

-- The four `slot_*` arrays at one index.
pub record Slot : Type 0 where
  pub state : SlotState
  pub pid : ℕ
  pub module_index : Option ℕ
  pub host : Option ℕ

abbrev pub free_slot : Slot
free_slot = record { state = free; pid = 0; module_index = none; host = none }

-- `max_slots`, `module_count` and `host_slots` are the lengths of the lists.
pub record DaemonLimitRegistry : Type 0 where
  pub per_host_cap : ℕ
  pub lockout_threshold : ℕ
  pub lockout_duration_sec : ℕ
  pub host_full_warn : ℕ
  pub slots : List Slot
  pub module_active : List ℕ
  pub hosts : List Bucket

pub data DaemonLimitResult : Type 0 where
  ok : DaemonLimitResult
  module_full : DaemonLimitResult
  host_full : DaemonLimitResult
  unavailable : DaemonLimitResult

abbrev pub is_free : SlotState → Bool
is_free free = true
is_free claimed = false
is_free registered = false

abbrev pub is_claimed : SlotState → Bool
is_claimed free = false
is_claimed claimed = true
is_claimed registered = false

abbrev pub is_registered : SlotState → Bool
is_registered free = false
is_registered claimed = false
is_registered registered = true

abbrev pub shifted : Option ℕ → Option ℕ
shifted none = none
shifted (some i) = some (suc i)

-- The loop of `daemon_limits_claim_slot`: the first free slot.
abbrev pub first_free : List Slot → Option ℕ
first_free [] = none
first_free (s ∷ slots) =
    let rest = first_free slots in if is_free s.state then some 0 else shifted rest

abbrev pub claim : Slot → Slot
claim s = record { state = claimed; pid = 0; module_index = none; host = none }

abbrev pub claim_at : DaemonLimitRegistry → Option ℕ → Option ℕ × DaemonLimitRegistry
claim_at r none = (none, r)
claim_at r (some i) = (some i, record r { slots = modify r.slots i claim })

unfoldable pub claim_slot : DaemonLimitRegistry → Option ℕ × DaemonLimitRegistry
claim_slot r = claim_at r (first_free r.slots)

-- An `int` is given by its 32 bits. A write past the end of a list changes nothing.
unfoldable pub set_slot_pid : DaemonLimitRegistry → Option ℕ → ℕ → DaemonLimitRegistry
set_slot_pid r none pid = r
set_slot_pid r (some i) pid = record r {
  slots = modify r.slots i (λ s. record s { pid = pid % 2 ^ 32 });
}

abbrev pub release : Slot → Slot
release s = record s { state = free; pid = 0 }

unfoldable pub reclaim_slot : DaemonLimitRegistry → Option ℕ → DaemonLimitRegistry
reclaim_slot r none = r
reclaim_slot r (some i) = record r { slots = modify r.slots i release }

-- The loop of `daemon_limits_reclaim_pid`.
abbrev pub slot_of : List Slot → ℕ → Option ℕ
slot_of [] pid = none
slot_of (s ∷ slots) pid =
    let rest = slot_of slots pid in
    if not (is_free s.state) && s.pid == pid % 2 ^ 32 then some 0 else shifted rest

unfoldable pub reclaim_pid : DaemonLimitRegistry → ℕ → DaemonLimitRegistry
reclaim_pid r pid = if pid == 0 then r else reclaim_slot r (slot_of r.slots pid)

abbrev pub zeroed : List ℕ → List ℕ
zeroed [] = []
zeroed (n ∷ active) = 0 ∷ zeroed active

abbrev pub idle : List Bucket → List Bucket
idle [] = []
idle (b ∷ hosts) = record b { active = 0 } ∷ idle hosts

-- `atomic_fetch_add` of 1 on the two counters of a slot; an index past the end is skipped.
abbrev pub bump_module : Option ℕ → List ℕ → List ℕ
bump_module none active = active
bump_module (some m) active = modify active m suc

abbrev pub enter : Bucket → Bucket
enter b = record b { active = suc b.active }

abbrev pub bump_host : Option ℕ → List Bucket → List Bucket
bump_host none hosts = hosts
bump_host (some h) hosts = modify hosts h enter

abbrev pub count_slot : SlotState → Slot → DaemonLimitRegistry → DaemonLimitRegistry
count_slot free s r = r
count_slot claimed s r = r
count_slot registered s r = record r {
  module_active = bump_module s.module_index r.module_active;
  hosts = bump_host s.host r.hosts;
}

-- The last loop of `daemon_limits_recompute`.
unfoldable pub tally : DaemonLimitRegistry → List Slot → DaemonLimitRegistry
tally r [] = r
tally r (s ∷ slots) = tally (count_slot s.state s r) slots

unfoldable pub recompute : DaemonLimitRegistry → DaemonLimitRegistry
recompute r =
    tally (record r { module_active = zeroed r.module_active; hosts = idle r.hosts }) r.slots

unfoldable pub tracks_hosts : DaemonLimitRegistry → Bool
tracks_hosts r = ltb 0 r.per_host_cap || (ltb 0 r.lockout_threshold && ltb 0 r.lockout_duration_sec)

-- 60 is `DAEMON_LIMITS_HOST_FULL_WARN_SEC`.
unfoldable pub warn_table_full : DaemonLimitRegistry → ℕ → DaemonLimitRegistry
warn_table_full r now =
    if not (r.host_full_warn == 0) && ltb (now - r.host_full_warn) 60
    then r
    else record r { host_full_warn = now }

abbrev pub interned :
    DaemonLimitRegistry → ℕ → Option ℕ × List Bucket → Option ℕ × DaemonLimitRegistry
interned r now (none, hosts) = (none, warn_table_full (record r { hosts = hosts }) now)
interned r now (some bucket, hosts) = (some bucket, record r { hosts = hosts })

abbrev pub intern_hashed : DaemonLimitRegistry → Option ℕ → ℕ → Option ℕ × DaemonLimitRegistry
intern_hashed r none now = (none, r)
intern_hashed r (some key) now = interned r now (intern_key r.hosts key now)

unfoldable pub host_intern : Net → DaemonLimitRegistry → List ℕ → ℕ → Option ℕ × DaemonLimitRegistry
host_intern net r peer_ip now = intern_hashed r (host_hash net peer_ip) now

-- `atomic_fetch_sub`
abbrev pub leave_module : DaemonLimitRegistry → ℕ → DaemonLimitRegistry
leave_module r m = record r { module_active = modify r.module_active m (λ n. n - 1) }

abbrev pub leave_host : DaemonLimitRegistry → ℕ → DaemonLimitRegistry
leave_host r h = record r { hosts = modify r.hosts h (λ b. record b { active = b.active - 1 }) }

abbrev pub publish : ℕ → Option ℕ → Slot → Slot
publish m host s = record s { state = registered; module_index = some m; host = host }

abbrev pub published :
    DaemonLimitRegistry → ℕ → ℕ → Option ℕ → DaemonLimitResult × DaemonLimitRegistry
published r i m host = (ok, record r { slots = modify r.slots i (publish m host) })

-- From the test of the per-source cap on.
unfoldable pub enter_host :
    DaemonLimitRegistry → ℕ → ℕ → Option ℕ → DaemonLimitResult × DaemonLimitRegistry
enter_host r i m none = published r i m none
enter_host r i m (some h) =
    let counted = record r { hosts = modify r.hosts h enter } in
    let host_count = active_at r.hosts h + 1 in
    if ltb 0 r.per_host_cap && ltb r.per_host_cap host_count
    then (host_full, leave_module (leave_host counted h) m)
    else published counted i m (some h)

-- From the test of the module's cap on.
unfoldable pub enter_module :
    ℕ → ℕ → ℕ → Option ℕ × DaemonLimitRegistry → DaemonLimitResult × DaemonLimitRegistry
enter_module i m module_cap (host, r) =
    let counted = record r { module_active = modify r.module_active m suc } in
    let module_count = get_or r.module_active m 0 + 1 in
    if ltb 0 module_cap && ltb module_cap module_count
    then (module_full, leave_module counted m)
    else enter_host counted i m host

-- The tests before the first write of `daemon_limits_register`: the slot and the module.
unfoldable pub admissible : DaemonLimitRegistry → Option ℕ → Option ℕ → Option (ℕ × ℕ)
admissible r slot module_index = do
  i ← slot
  guard (ltb i (length r.slots))
  m ← module_index
  guard (ltb m (length r.module_active))
  guard (is_claimed (get_or r.slots i free_slot).state)
  some (i, m)

unfoldable pub register_at :
    Net
    → DaemonLimitRegistry
    → Option (ℕ × ℕ)
    → List ℕ
    → ℕ
    → ℕ
    → DaemonLimitResult × DaemonLimitRegistry
register_at net r none peer_ip module_cap now = (unavailable, r)
register_at net r (some (i, m)) peer_ip module_cap now =
    enter_module i m module_cap
      (if tracks_hosts r then host_intern net r peer_ip now else (none, r))

unfoldable pub register :
    Net
    → DaemonLimitRegistry
    → Option ℕ
    → Option ℕ
    → List ℕ
    → ℕ
    → ℕ
    → DaemonLimitResult × DaemonLimitRegistry
register net r slot module_index peer_ip module_cap now =
    register_at net r (admissible r slot module_index) peer_ip module_cap now
