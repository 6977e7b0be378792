-- ===== src/DaemonLimits/Lockout/Answers.antt =====
-- The calls about lockouts that keep one: questions, failures, and successes of other sources.
use fast_sync.Prelude.{
  ℕ, suc, ◌+◌, ◌-◌, ◌≤◌, ◌<◌, ◌≡◌, ◌≢◌, refl, sym, ap, ◌∙◌, List, Bool, true, false, not, Option,
  none, some, arith, ltb, leb, ◌==◌, if◌then◌else◌, length, get_or, modify, ltb→le,
}
use fast_sync.HostTable.{
  Bucket, empty_bucket, Net, host_hash, key_at, lookup_scan, looked_up, lookup_hashed, host_lookup,
  stamp,
}
use fast_sync.HostTable.Canonical.{key_at-modify_kept}
use fast_sync.HostTable.Keeps.{Locked, until_at, kept-Locked, apart-Locked}
use fast_sync.HostTable.Lasting.{lookup_scan-key, looked_up-Locked, host_lookup-Locked}
use fast_sync.DaemonLimits.{DaemonLimitRegistry, host_intern}
use fast_sync.DaemonLimits.Auth.{
  locked_at, auth_locked, fail_at, auth_record_failure, clear, clear_at, auth_record_success,
  locks_out,
}
use fast_sync.DaemonLimits.Lockout.Steps.{host_intern-Locked}

module _ (key deadline : ℕ) where
  -- A bucket whose lockout is over is not that of the source.
  clear-Locked :
      (hosts : List Bucket) (bucket now : ℕ)
      → now < deadline
      → until_at hosts bucket ≤ now
      → Locked hosts key deadline
      → Locked (modify hosts bucket clear) key deadline
  clear-Locked hosts bucket now early over l =
      apart-Locked hosts bucket clear key deadline (λ b. refl) l
        (λ e. let same = ap (until_at hosts) e in omega (arith, l.lasts))

  locked_at-Locked :
      (r : DaemonLimitRegistry) (now : ℕ) (o : Option ℕ × List Bucket)
      → now < deadline
      → Locked o.1 key deadline
      → Locked (locked_at r now o).1.hosts key deadline
  unfolding locked_at
  locked_at-Locked r now (none, hosts) early l = l
  locked_at-Locked r now (some bucket, hosts) early l =
      go (ltb now (until_at hosts bucket)) refl (not (until_at hosts bucket == 0))
    where
      go :
          (b : Bool)
          → ltb now (until_at hosts bucket) ≡ b
          → (c : Bool)
          → Locked
              (if◌then◌else◌ {A = Option ℕ × DaemonLimitRegistry} b
                (some (until_at hosts bucket - now), record r { hosts = hosts })
                (if c
                  then (none, record r { hosts = modify hosts bucket clear })
                  else (none, record r { hosts = hosts }))).1.hosts
              key
              deadline
      go true e c = l
      go false e true = clear-Locked hosts bucket now early (ltb→le _ _ e) l
      go false e false = l

  fail_at-Locked :
      (now : ℕ) (o : Option ℕ × DaemonLimitRegistry)
      → deadline ≤ now + o.1.lockout_duration_sec
      → Locked o.1.hosts key deadline
      → Locked (fail_at now o).hosts key deadline
  unfolding fail_at
  fail_at-Locked now (none, r) long l = l
  fail_at-Locked now (some bucket, r) long l =
      go (leb r.lockout_threshold ((get_or r.hosts bucket empty_bucket).fail + 1))
    where
      counted : List Bucket
      counted = modify r.hosts bucket (λ b. record b { fail = suc b.fail })

      once : Locked counted key deadline
      once =
          kept-Locked r.hosts bucket (λ b. record b { fail = suc b.fail }) key deadline (λ b. refl)
            (λ b h. h) l

      go :
          (b : Bool)
          → Locked
              (if◌then◌else◌ {A = DaemonLimitRegistry} b
                (record r {
                  hosts =
                      modify counted bucket
                        (λ b. record b { until = now + r.lockout_duration_sec });
                })
                (record r { hosts = counted })).hosts
              key
              deadline
      go true =
          kept-Locked counted bucket (λ b. record b { until = now + r.lockout_duration_sec }) key
            deadline (λ b. refl) (λ b h. long) once
      go false = once

  -- The bucket of another source is another bucket.
  clear_at-Locked :
      (r : DaemonLimitRegistry) (other : ℕ) (o : Option ℕ)
      → other ≢ key
      → (now : ℕ) → lookup_scan r.hosts other (length r.hosts) 0 ≡ o
      → Locked r.hosts key deadline
      → Locked (clear_at r (looked_up r.hosts now o)).hosts key deadline
  unfolding clear_at
  clear_at-Locked r other none differs now found l = l
  clear_at-Locked r other (some bucket) differs now found l =
      let stamped = modify r.hosts bucket (stamp now) in
      let marked : Locked stamped key deadline =
        looked_up-Locked r.hosts now (some bucket) key deadline l in
      let theirs : key_at stamped bucket ≡ other =
        key_at-modify_kept r.hosts bucket (stamp now) bucket (λ b. refl)
        ∙ lookup_scan-key r.hosts other (length r.hosts) 0 bucket found in
      apart-Locked stamped bucket clear key deadline (λ b. refl) marked
        (λ e. differs (sym theirs ∙ ap (key_at stamped) e ∙ marked.canonical.holds))

  pub auth_locked-Locked :
      (net : Net) (r : DaemonLimitRegistry) (peer_ip : List ℕ) (now : ℕ)
      → now < deadline
      → Locked r.hosts key deadline
      → Locked (auth_locked net r peer_ip now).1.hosts key deadline
  unfolding auth_locked
  auth_locked-Locked net r peer_ip now early l = go (locks_out r)
    where
      go :
          (b : Bool)
          → Locked
              (if◌then◌else◌ {A = Option ℕ × DaemonLimitRegistry} b
                (locked_at r now (host_lookup net r.hosts peer_ip now))
                (none, r)).1.hosts
              key
              deadline
      go true =
          locked_at-Locked r now (host_lookup net r.hosts peer_ip now) early
            (host_lookup-Locked net r.hosts peer_ip now key deadline l)
      go false = l

  pub record_failure-Locked :
      (net : Net) (r : DaemonLimitRegistry) (peer_ip : List ℕ) (now : ℕ)
      → key ≢ 0
      → now < deadline
      → deadline ≤ now + (host_intern net r peer_ip now).1.lockout_duration_sec
      → Locked r.hosts key deadline
      → Locked (auth_record_failure net r peer_ip now).hosts key deadline
  unfolding auth_record_failure
  record_failure-Locked net r peer_ip now nonzero early long l = go (locks_out r)
    where
      go :
          (b : Bool)
          → Locked
              (if◌then◌else◌ {A = DaemonLimitRegistry} b
                (fail_at now (host_intern net r peer_ip now))
                r).hosts
              key
              deadline
      go true =
          fail_at-Locked now (host_intern net r peer_ip now) long
            (host_intern-Locked key deadline nonzero net r peer_ip now early l)
      go false = l

  pub record_success-Locked :
      (net : Net) (r : DaemonLimitRegistry) (peer_ip : List ℕ) (now : ℕ)
      → host_hash net peer_ip ≢ some key
      → Locked r.hosts key deadline
      → Locked (auth_record_success net r peer_ip now).hosts key deadline
  unfolding auth_record_success host_lookup clear_at
  record_success-Locked net r peer_ip now differs l = go (host_hash net peer_ip) refl
    where
      go :
          (k : Option ℕ)
          → host_hash net peer_ip ≡ k
          → Locked (clear_at r (lookup_hashed r.hosts k now)).hosts key deadline
      go none e = l
      go (some other) e =
          clear_at-Locked r other (lookup_scan r.hosts other (length r.hosts) 0)
            (λ same. differs (e ∙ ap some same)) now refl l
