-- ===== src/DaemonLimits/Sources.antt =====
-- The bucket that `daemon_limits_register` takes for a connection's source.
use mathlib.Core.Path.{subst}
use fast_sync.Prelude.{
  ℕ, ◌≡◌, ◌⊎◌, inl, inr, refl, ◌∙◌, List, Bool, true, false, Option, none, some, arith,
  if◌then◌else◌, length,
}
use fast_sync.HostTable.{Bucket, key_at, Net, host_hash, intern_key}
use fast_sync.HostTable.Probing.{AllOther, NoneIdle}
use fast_sync.HostTable.Canonical.{
  Interned, intern_key-Interned, intern_key-Full, key_at-modify_kept,
}
use fast_sync.HostTable.Occupancy.{host_hash-nonzero}
use fast_sync.DaemonLimits.{
  DaemonLimitRegistry, interned, intern_hashed, host_intern, tracks_hosts, enter,
}
use fast_sync.DaemonLimits.Entering.{admitted}

-- The source's bucket and the registry with it, where sources are tracked.
abbrev pub source : Net → DaemonLimitRegistry → List ℕ → ℕ → Option ℕ × DaemonLimitRegistry
source net r peer_ip now = if tracks_hosts r then host_intern net r peer_ip now else (none, r)

-- What the bucket has to do with the hash of the address. An address that does not parse has no bucket.
-- Any other has a bucket that holds its hash; or it has none, since there is no cap on sources or every
-- bucket that a probe for it meets holds another source and may not be taken over at the time `now`.
abbrev pub IsBucketOf : DaemonLimitRegistry → ℕ → Option ℕ → Option ℕ × DaemonLimitRegistry → Type 0
IsBucketOf r now none found = found.0 ≡ none
IsBucketOf r now (some key) (none, after) =
    (r.per_host_cap ≡ 0)
    ⊎ (AllOther r.hosts key (length r.hosts) × NoneIdle r.hosts key now (length r.hosts))
IsBucketOf r now (some key) (some h, after) = key_at after.hosts h ≡ key

pub bucket-key :
    (r : DaemonLimitRegistry) (now : ℕ) (hash host : Option ℕ) (h : ℕ) (after : DaemonLimitRegistry)
    → IsBucketOf r now hash (host, after)
    → host ≡ some h
    → (key : ℕ) × (hash ≡ some key) × (key_at after.hosts h ≡ key)
bucket-key r now none host h after b e = cc
bucket-key r now (some key) none h after b e = cc
bucket-key r now (some key) (some x) h after b e =
    let eq : x ≡ h = cc e in (key, refl, subst (λ y. key_at after.hosts y ≡ key) eq b)

-- The connection that goes in leaves the bucket its hash.
pub admitted-IsBucketOf :
    (r : DaemonLimitRegistry) (now : ℕ) (hash host : Option ℕ) (before : DaemonLimitRegistry)
    (i m : ℕ)
    → IsBucketOf r now hash (host, before)
    → IsBucketOf r now hash (host, admitted before i m host)
admitted-IsBucketOf r now none host before i m b = b
admitted-IsBucketOf r now (some key) none before i m b = b
admitted-IsBucketOf r now (some key) (some h) before i m b =
    key_at-modify_kept before.hosts h enter h (λ x. refl) ∙ b

untracked : (r : DaemonLimitRegistry) → tracks_hosts r ≡ false → r.per_host_cap ≡ 0
unfolding tracks_hosts
untracked r e = ground arith

interned-IsBucketOf :
    (r : DaemonLimitRegistry) (now key : ℕ) (o : Option ℕ × List Bucket)
    → Interned r.hosts key o
    → ((hosts : List Bucket)
        → o ≡ (none, hosts)
        → AllOther r.hosts key (length r.hosts) × NoneIdle r.hosts key now (length r.hosts))
    → IsBucketOf r now (some key) (interned r now o)
interned-IsBucketOf r now key (none, hosts) known full = inr (full hosts refl)
interned-IsBucketOf r now key (some h, hosts) (c, size) full = c.holds

pub source-IsBucketOf :
    (net : Net) (r : DaemonLimitRegistry) (peer_ip : List ℕ) (now : ℕ)
    → IsBucketOf r now (host_hash net peer_ip) (source net r peer_ip now)
unfolding host_intern
source-IsBucketOf net r peer_ip now = go (tracks_hosts r) (host_hash net peer_ip) refl refl
  where
    go :
        (b : Bool) (k : Option ℕ)
        → tracks_hosts r ≡ b
        → host_hash net peer_ip ≡ k
        → IsBucketOf r now k
            (if◌then◌else◌ {A = Option ℕ × DaemonLimitRegistry} b (intern_hashed r k now) (none, r))
    go true none e f = refl
    go false none e f = refl
    go false (some key) e f = inl (untracked r e)
    go true (some key) e f =
        let nonzero = host_hash-nonzero net peer_ip key f in
        interned-IsBucketOf r now key (intern_key r.hosts key now)
          (intern_key-Interned r.hosts key now nonzero)
          (λ hosts g. intern_key-Full r.hosts key now nonzero g)
