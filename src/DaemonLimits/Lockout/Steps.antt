-- ===== src/DaemonLimits/Lockout/Steps.antt =====
-- Each call that may come before the deadline keeps a lockout.
use mathlib.Core.Path.{subst}
use fast_sync.Prelude.{
  ℕ, zero, suc, ◌-◌, ◌<◌, ◌≡◌, ◌≢◌, refl, sym, List, [], ◌∷◌, Bool, true, false, not, ◌&&◌, Option,
  none, some, ltb, ◌==◌, if◌then◌else◌,
}
use fast_sync.HostTable.{Bucket, Net, host_hash, key_at, intern_key}
use fast_sync.HostTable.Keeps.{Locked, until_at, kept-Locked, intern_key-Locked}
use fast_sync.HostTable.Lasting.{Alike, Alike-Locked}
use fast_sync.HostTable.Occupancy.{host_hash-nonzero}
use fast_sync.DaemonLimits.{
  DaemonLimitRegistry, DaemonLimitResult, ok, module_full, host_full, unavailable, Slot, SlotState,
  free, claimed, registered, enter, bump_host, idle, count_slot, tally, recompute, warn_table_full,
  interned, intern_hashed, host_intern, register, register_at, admissible, tracks_hosts,
  enter_module,
}
use fast_sync.DaemonLimits.Counts.{length-idle}
use fast_sync.DaemonLimits.Entering.{Entered, enter_module-Entered}

module _ (key deadline : ℕ) where
  bump_host-Locked :
      (host : Option ℕ) (hosts : List Bucket)
      → Locked hosts key deadline
      → Locked (bump_host host hosts) key deadline
  bump_host-Locked none hosts l = l
  bump_host-Locked (some h) hosts l =
      kept-Locked hosts h enter key deadline (λ b. refl) (λ b k. k) l

  count_slot-Locked :
      (state : SlotState) (s : Slot) (r : DaemonLimitRegistry)
      → Locked r.hosts key deadline
      → Locked (count_slot state s r).hosts key deadline
  count_slot-Locked free s r l = l
  count_slot-Locked claimed s r l = l
  count_slot-Locked registered s r l = bump_host-Locked s.host r.hosts l

  tally-Locked :
      (slots : List Slot) (r : DaemonLimitRegistry)
      → Locked r.hosts key deadline
      → Locked (tally r slots).hosts key deadline
  unfolding tally
  tally-Locked [] r l = l
  tally-Locked (s ∷ slots) r l =
      tally-Locked slots (count_slot s.state s r) (count_slot-Locked s.state s r l)

  key_at-idle : (hosts : List Bucket) (i : ℕ) → key_at (idle hosts) i ≡ key_at hosts i
  key_at-idle [] i = refl
  key_at-idle (b ∷ hosts) zero = refl
  key_at-idle (b ∷ hosts) (suc i) = key_at-idle hosts i

  until_at-idle : (hosts : List Bucket) (i : ℕ) → until_at (idle hosts) i ≡ until_at hosts i
  until_at-idle [] i = refl
  until_at-idle (b ∷ hosts) zero = refl
  until_at-idle (b ∷ hosts) (suc i) = until_at-idle hosts i

  idle-Alike : (hosts : List Bucket) → Alike hosts (idle hosts)
  idle-Alike hosts = record {
    size = length-idle hosts;
    keys = key_at-idle hosts;
    deadlines = until_at-idle hosts;
  }

  pub recompute-Locked :
      (r : DaemonLimitRegistry)
      → Locked r.hosts key deadline
      → Locked (recompute r).hosts key deadline
  unfolding recompute
  recompute-Locked r l =
      tally-Locked r.slots _
        (Alike-Locked r.hosts (idle r.hosts) key deadline (idle-Alike r.hosts) l)

  warn-Locked :
      (r : DaemonLimitRegistry) (now : ℕ)
      → Locked r.hosts key deadline
      → Locked (warn_table_full r now).hosts key deadline
  unfolding warn_table_full
  warn-Locked r now l = go (not (r.host_full_warn == 0) && ltb (now - r.host_full_warn) 60)
    where
      go :
          (b : Bool)
          → Locked
              (if◌then◌else◌ {A = DaemonLimitRegistry} b r
                (record r { host_full_warn = now })).hosts
              key
              deadline
      go true = l
      go false = l

  interned-Locked :
      (r : DaemonLimitRegistry) (now : ℕ) (o : Option ℕ × List Bucket)
      → Locked o.1 key deadline
      → Locked (interned r now o).1.hosts key deadline
  interned-Locked r now (none, hosts) l = warn-Locked (record r { hosts = hosts }) now l
  interned-Locked r now (some bucket, hosts) l = l

  -- A source with a nonzero key is locked out, and it is before the deadline.
  module _ (nonzero : key ≢ 0) (net : Net) where
    pub host_intern-Locked :
        (r : DaemonLimitRegistry) (peer_ip : List ℕ) (now : ℕ)
        → now < deadline
        → Locked r.hosts key deadline
        → Locked (host_intern net r peer_ip now).1.hosts key deadline
    unfolding host_intern
    host_intern-Locked r peer_ip now early l = go (host_hash net peer_ip) refl
      where
        go :
            (k : Option ℕ)
            → host_hash net peer_ip ≡ k
            → Locked (intern_hashed r k now).1.hosts key deadline
        go none e = l
        go (some other) e = interned-Locked r now (intern_key r.hosts other now) (
            intern_key-Locked r.hosts key other now deadline nonzero
              (host_hash-nonzero net peer_ip other e) early l)

    Entered-Locked :
        (r : DaemonLimitRegistry) (i m module_cap : ℕ) (host : Option ℕ)
        (out : DaemonLimitResult × DaemonLimitRegistry)
        → Entered r i m host module_cap out
        → Locked r.hosts key deadline
        → Locked out.1.hosts key deadline
    Entered-Locked r i m module_cap host (ok, after) e l =
        subst (λ (x : DaemonLimitRegistry). Locked x.hosts key deadline) (sym e.0)
          (bump_host-Locked host r.hosts l)
    Entered-Locked r i m module_cap host (module_full, after) e l =
        subst (λ (x : DaemonLimitRegistry). Locked x.hosts key deadline) (sym e.0) l
    Entered-Locked r i m module_cap host (host_full, after) e l =
        subst (λ (x : DaemonLimitRegistry). Locked x.hosts key deadline) (sym e.0) l
    Entered-Locked r i m module_cap host (unavailable, after) e l = absurd e

    pub register-Locked :
        (r : DaemonLimitRegistry) (slot module_index : Option ℕ) (peer_ip : List ℕ)
        (module_cap now : ℕ)
        → now < deadline
        → Locked r.hosts key deadline
        → Locked (register net r slot module_index peer_ip module_cap now).1.hosts key deadline
    unfolding register register_at
    register-Locked r slot module_index peer_ip module_cap now early l =
        go (admissible r slot module_index)
      where
        tracked :
            (b : Bool)
            → Locked
                (if◌then◌else◌ {A = Option ℕ × DaemonLimitRegistry} b
                  (host_intern net r peer_ip now)
                  (none, r)).1.hosts
                key
                deadline
        tracked true = host_intern-Locked r peer_ip now early l
        tracked false = l

        go :
            (o : Option (ℕ × ℕ))
            → Locked (register_at net r o peer_ip module_cap now).1.hosts key deadline
        go none = l
        go (some (i, m)) =
            let found = if tracks_hosts r then host_intern net r peer_ip now else (none, r) in
            Entered-Locked found.1 i m module_cap found.0 (enter_module i m module_cap found)
              (enter_module-Entered found.1 i m module_cap found.0) (tracked (tracks_hosts r))
