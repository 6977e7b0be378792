-- ===== src/HostTable.antt =====
-- The per-source table of src/shared/daemon_limits.c: buckets for the peers' addresses, found by
-- linear probing. A key of 0 is an empty bucket. Each call runs without a race, so that every
-- compare-and-swap succeeds and the second pass of `host_intern`, which follows a lost one, is not
-- reached. `time(NULL)` is an argument; -1 is `none`.
pub mod Probing
pub mod Canonical
pub mod Keeps
pub mod Occupancy
pub mod Lasting
use fast_sync.Prelude.{
  ℕ, zero, suc, ◌+◌, ◌-◌, ◌*◌, ◌%◌, ◌^◌, List, [], ◌∷◌, Bool, true, false, not, ◌&&◌, Option, none,
  some, bit_xor, bit_and, leb, ◌==◌, if◌then◌else◌, length, get_or, modify,
}

-- The five `host_*` arrays at one index.
pub record Bucket : Type 0 where
  pub key : ℕ
  pub active : ℕ
  pub fail : ℕ
  pub until : ℕ
  pub last_use : ℕ

abbrev pub empty_bucket : Bucket
empty_bucket = record { key = 0; active = 0; fail = 0; until = 0; last_use = 0 }

-- `inet_pton` for the two families: the bytes of an address.
pub record Net : Type 0 where
  pub inet_pton_4 : List ℕ → Option (List ℕ)
  pub inet_pton_6 : List ℕ → Option (List ℕ)

pub record Address : Type 0 where
  pub family : ℕ
  pub bytes : List ℕ

-- 2 and 10 are `AF_INET` and `AF_INET6`.
unfoldable pub parse_peer_ip : Net → List ℕ → Option Address
parse_peer_ip net peer_ip = if length peer_ip == 0 then none else elim (net.inet_pton_4 peer_ip) [
  | some bytes ↦ some (record { family = 2; bytes = bytes })
  | none ↦ elim (net.inet_pton_6 peer_ip) [
    | some bytes ↦ some (record { family = 10; bytes = bytes })
    | none ↦ none
  ]
]

unfoldable pub fnv_bytes : ℕ → List ℕ → ℕ
fnv_bytes hash [] = hash
fnv_bytes hash (byte ∷ bytes) = fnv_bytes (bit_xor hash byte * 1099511628211 % 2 ^ 64) bytes

abbrev pub hash_of : Option Address → Option ℕ
hash_of none = none
hash_of (some address) =
    let hash = fnv_bytes (bit_xor 14695981039346656037 address.family) address.bytes in
    some (if hash == 0 then 0x9e3779b97f4a7c15 else hash)

-- `daemon_limits_host_hash`
unfoldable pub host_hash : Net → List ℕ → Option ℕ
host_hash net peer_ip = hash_of (parse_peer_ip net peer_ip)

-- The bucket `i` rounds after the start of the probe.
unfoldable pub probe_index : List Bucket → ℕ → ℕ → ℕ
probe_index hosts key i = let mask = length hosts - 1 in bit_and (bit_and key mask + i) mask

abbrev pub key_at : List Bucket → ℕ → ℕ
key_at hosts idx = (get_or hosts idx empty_bucket).key

abbrev pub active_at : List Bucket → ℕ → ℕ
active_at hosts idx = (get_or hosts idx empty_bucket).active

-- The loop of `host_lookup`, which the loop after an eviction repeats.
unfoldable pub lookup_scan : List Bucket → ℕ → ℕ → ℕ → Option ℕ
lookup_scan hosts key zero i = none
lookup_scan hosts key (suc left) i =
    let idx = probe_index hosts key i in
    let rest = lookup_scan hosts key left (i + 1) in
    if key_at hosts idx == key then some idx else if key_at hosts idx == 0 then none else rest

abbrev pub stamp : ℕ → Bucket → Bucket
stamp now b = record b { last_use = now }

abbrev pub looked_up : List Bucket → ℕ → Option ℕ → Option ℕ × List Bucket
looked_up hosts now none = (none, hosts)
looked_up hosts now (some idx) = (some idx, modify hosts idx (stamp now))

abbrev pub lookup_hashed : List Bucket → Option ℕ → ℕ → Option ℕ × List Bucket
lookup_hashed hosts none now = (none, hosts)
lookup_hashed hosts (some key) now = looked_up hosts now (lookup_scan hosts key (length hosts) 0)

unfoldable pub host_lookup : Net → List Bucket → List ℕ → ℕ → Option ℕ × List Bucket
host_lookup net hosts peer_ip now = lookup_hashed hosts (host_hash net peer_ip) now

-- 300 is `DAEMON_LIMITS_HOST_EVICT_IDLE_SEC`.
unfoldable pub reclaimable : Bucket → ℕ → Bool
reclaimable b now =
    if not (b.active == 0)
    then false
    else if not (b.until == 0)
    then leb b.until now
    else not (b.last_use == 0) && leb 300 (now - b.last_use)

-- How the probe of `host_intern` ends: at the key, at an empty bucket, or at neither, with the first
-- reclaimable bucket.
pub data Probe : Type 0 where
  found : ℕ → Probe
  empty : ℕ → Probe
  full : Option ℕ → Probe

abbrev pub candidate : List Bucket → ℕ → ℕ → Option ℕ → Option ℕ
candidate hosts now idx (some evict) = some evict
candidate hosts now idx none =
    if reclaimable (get_or hosts idx empty_bucket) now then some idx else none

unfoldable pub intern_scan : List Bucket → ℕ → ℕ → ℕ → ℕ → Option ℕ → Probe
intern_scan hosts key now zero i evict = full evict
intern_scan hosts key now (suc left) i evict =
    let idx = probe_index hosts key i in
    let rest = intern_scan hosts key now left (i + 1) (candidate hosts now idx evict) in
    if key_at hosts idx == key then found idx else if key_at hosts idx == 0 then empty idx else rest

-- The evicted bucket for the new source.
abbrev pub reuse : ℕ → ℕ → Bucket → Bucket
reuse key now b = record { key = key; active = 0; fail = 0; until = 0; last_use = now }

-- After the eviction the loop looks for the first bucket with the key.
unfoldable pub settle : List Bucket → ℕ → Option ℕ → Option ℕ × List Bucket
settle changed evict none = (some evict, changed)
settle changed evict (some canonical) =
    if canonical == evict
    then (some evict, changed)
    else (some canonical, modify changed evict (λ b. record b { active = 0 }))

unfoldable pub evict_for : List Bucket → ℕ → ℕ → ℕ → Option ℕ × List Bucket
evict_for hosts key now evict =
    let changed = modify hosts evict (reuse key now) in
    settle changed evict (lookup_scan changed key (length changed) 0)

-- `host_intern` for the key of its source, without the warning of a full table.
unfoldable pub intern_key : List Bucket → ℕ → ℕ → Option ℕ × List Bucket
intern_key hosts key now = elim (intern_scan hosts key now (length hosts) 0 none) [
  | found idx ↦ (some idx, modify hosts idx (stamp now))
  | empty idx ↦ (some idx, modify hosts idx (λ b. record b { key = key; last_use = now }))
  | full none ↦ (none, hosts)
  | full (some evict) ↦ evict_for hosts key now evict
]
