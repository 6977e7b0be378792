-- ===== src/HostTable/Occupancy.antt =====
-- Lookups and interning leave the occupancy of every bucket as it was.
use fast_sync.Prelude.{
  ℕ, zero, suc, ◌≡◌, ◌≢◌, inl, inr, refl, sym, ◌∙◌, List, [], ◌∷◌, true, Option, none, some, arith,
  ◌==◌, if◌then◌else◌, Bool-cases, bit_xor, length, get_or, modify,
}
use fast_sync.HostTable.{
  Bucket, empty_bucket, active_at, lookup_scan, stamp, looked_up, lookup_hashed, host_lookup, Net,
  Address, hash_of, host_hash, parse_peer_ip, fnv_bytes, Probe, found, empty, full, intern_scan,
  reuse, settle, evict_for, intern_key, reclaimable,
}
use fast_sync.HostTable.Probing.{Ends, intern_scan_lem}

hash_of-nonzero : (address : Option Address) (key : ℕ) → hash_of address ≡ some key → key ≢ 0
hash_of-nonzero none key h z = cc
hash_of-nonzero (some address) key h z =
    let hash = fnv_bytes (bit_xor 14695981039346656037 address.family) address.bytes in
    let eq : (if hash == 0 then 0x9e3779b97f4a7c15 else hash) ≡ key = cc h in ground arith

pub host_hash-nonzero :
    (net : Net) (peer_ip : List ℕ) (key : ℕ) → host_hash net peer_ip ≡ some key → key ≢ 0
unfolding host_hash
host_hash-nonzero net peer_ip key h = hash_of-nonzero (parse_peer_ip net peer_ip) key h

pub active_at-keep :
    (hosts : List Bucket) (j : ℕ) (f : Bucket → Bucket) (i : ℕ)
    → ((b : Bucket) → (f b).active ≡ b.active)
    → active_at (modify hosts j f) i ≡ active_at hosts i
active_at-keep [] j f i k = refl
active_at-keep (b ∷ hosts) zero f zero k = k b
active_at-keep (b ∷ hosts) zero f (suc i) k = refl
active_at-keep (b ∷ hosts) (suc j) f zero k = refl
active_at-keep (b ∷ hosts) (suc j) f (suc i) k = active_at-keep hosts j f i k

active_at-reset :
    (hosts : List Bucket) (j : ℕ) (f : Bucket → Bucket) (i : ℕ)
    → ((b : Bucket) → (f b).active ≡ 0)
    → active_at hosts j ≡ 0
    → active_at (modify hosts j f) i ≡ active_at hosts i
active_at-reset [] j f i k z = refl
active_at-reset (b ∷ hosts) zero f zero k z = k b ∙ sym z
active_at-reset (b ∷ hosts) zero f (suc i) k z = refl
active_at-reset (b ∷ hosts) (suc j) f zero k z = refl
active_at-reset (b ∷ hosts) (suc j) f (suc i) k z = active_at-reset hosts j f i k z

reclaimable-idle : (b : Bucket) (now : ℕ) → reclaimable b now ≡ true → b.active ≡ 0
unfolding reclaimable
reclaimable-idle b now h = ground arith

settle-active :
    (changed : List Bucket) (evict : ℕ) (o : Option ℕ) (i : ℕ)
    → active_at changed evict ≡ 0
    → active_at (settle changed evict o).1 i ≡ active_at changed i
unfolding settle
settle-active changed evict none i z = refl
settle-active changed evict (some canonical) i z = elim (Bool-cases (canonical == evict)) [
  | inl e ↦ rw e refl
  | inr e ↦ rw e (active_at-reset changed evict (λ b. record b { active = 0 }) i (λ b. refl) z)
]

evict_for-active :
    (hosts : List Bucket) (key now evict i : ℕ)
    → active_at hosts evict ≡ 0
    → active_at (evict_for hosts key now evict).1 i ≡ active_at hosts i
unfolding evict_for
evict_for-active hosts key now evict i z =
    let changed = modify hosts evict (reuse key now) in
    let same : (j : ℕ) → active_at changed j ≡ active_at hosts j =
      λ j. active_at-reset hosts evict (reuse key now) j (λ b. refl) z in
    settle-active changed evict (lookup_scan changed key (length changed) 0) i (same evict ∙ z)
    ∙ same i

pub intern_key-active :
    (hosts : List Bucket) (key now i : ℕ)
    → active_at (intern_key hosts key now).1 i ≡ active_at hosts i
unfolding intern_key
intern_key-active hosts key now i =
    go (intern_scan hosts key now (length hosts) 0 none) (intern_scan_lem hosts key now)
  where
    go :
        (p : Probe)
        → Ends hosts key now p
        → active_at
            (elim p as (λ _. Option ℕ × List Bucket) [
              | found idx ↦ (some idx, modify hosts idx (stamp now))
              | empty idx ↦
                  (some idx, modify hosts idx (λ b. record b { key = key; last_use = now }))
              | full none ↦ (none, hosts)
              | full (some evict) ↦ evict_for hosts key now evict
            ]).1
            i
          ≡ active_at hosts i
    go (found idx) c = active_at-keep hosts idx (stamp now) i (λ b. refl)
    go (empty idx) c =
        active_at-keep hosts idx (λ b. record b { key = key; last_use = now }) i (λ b. refl)
    go (full none) c = refl
    go (full (some evict)) (inside, usable, c, others) =
        evict_for-active hosts key now evict i
          (reclaimable-idle (get_or hosts evict empty_bucket) now usable)

looked_up-active :
    (hosts : List Bucket) (now : ℕ) (o : Option ℕ) (i : ℕ)
    → active_at (looked_up hosts now o).1 i ≡ active_at hosts i
looked_up-active hosts now none i = refl
looked_up-active hosts now (some idx) i = active_at-keep hosts idx (stamp now) i (λ b. refl)

lookup_hashed-active :
    (hosts : List Bucket) (key : Option ℕ) (now i : ℕ)
    → active_at (lookup_hashed hosts key now).1 i ≡ active_at hosts i
lookup_hashed-active hosts none now i = refl
lookup_hashed-active hosts (some key) now i =
    looked_up-active hosts now (lookup_scan hosts key (length hosts) 0) i

pub host_lookup-active :
    (net : Net) (hosts : List Bucket) (peer_ip : List ℕ) (now i : ℕ)
    → active_at (host_lookup net hosts peer_ip now).1 i ≡ active_at hosts i
unfolding host_lookup
host_lookup-active net hosts peer_ip now i =
    lookup_hashed-active hosts (host_hash net peer_ip) now i
