-- ===== src/DaemonLimits/Auth.antt =====
-- The lockout after failed logins in src/shared/daemon_limits.c. An answer `some n` means that the
-- source is locked out for n more seconds.
use fast_sync.Prelude.{
  ℕ, suc, ◌+◌, ◌-◌, List, Bool, not, ◌&&◌, Option, none, some, ltb, leb, ◌==◌, if◌then◌else◌,
  get_or, modify,
}
use fast_sync.HostTable.{Bucket, empty_bucket, Net, host_lookup}
use fast_sync.DaemonLimits.{DaemonLimitRegistry, host_intern}

abbrev pub clear : Bucket → Bucket
clear b = record b { fail = 0; until = 0 }

-- A source is locked out with so many seconds left, or not.
unfoldable pub locked_at :
    DaemonLimitRegistry → ℕ → Option ℕ × List Bucket → Option ℕ × DaemonLimitRegistry
locked_at r now (none, hosts) = (none, record r { hosts = hosts })
locked_at r now (some bucket, hosts) =
    let until = (get_or hosts bucket empty_bucket).until in
    if ltb now until
    then (some (until - now), record r { hosts = hosts })
    else if not (until == 0)
    then (none, record r { hosts = modify hosts bucket clear })
    else (none, record r { hosts = hosts })

abbrev pub locks_out : DaemonLimitRegistry → Bool
locks_out r = ltb 0 r.lockout_threshold && ltb 0 r.lockout_duration_sec

unfoldable pub auth_locked : Net → DaemonLimitRegistry → List ℕ → ℕ → Option ℕ × DaemonLimitRegistry
auth_locked net r peer_ip now =
    if locks_out r then locked_at r now (host_lookup net r.hosts peer_ip now) else (none, r)

unfoldable pub fail_at : ℕ → Option ℕ × DaemonLimitRegistry → DaemonLimitRegistry
fail_at now (none, r) = r
fail_at now (some bucket, r) =
    let failures = (get_or r.hosts bucket empty_bucket).fail + 1 in
    let counted = modify r.hosts bucket (λ b. record b { fail = suc b.fail }) in
    if leb r.lockout_threshold failures
    then record r {
      hosts = modify counted bucket (λ b. record b { until = now + r.lockout_duration_sec });
    }
    else record r { hosts = counted }

unfoldable pub auth_record_failure : Net → DaemonLimitRegistry → List ℕ → ℕ → DaemonLimitRegistry
auth_record_failure net r peer_ip now =
    if locks_out r then fail_at now (host_intern net r peer_ip now) else r

unfoldable pub clear_at : DaemonLimitRegistry → Option ℕ × List Bucket → DaemonLimitRegistry
clear_at r (none, hosts) = record r { hosts = hosts }
clear_at r (some bucket, hosts) = record r { hosts = modify hosts bucket clear }

unfoldable pub auth_record_success : Net → DaemonLimitRegistry → List ℕ → ℕ → DaemonLimitRegistry
auth_record_success net r peer_ip now = clear_at r (host_lookup net r.hosts peer_ip now)
