-- ===== src/DaemonLimits/Lockout.antt =====
-- A lockout lasts until its deadline, whatever the other processes do.
mod Steps
mod Answers
mod Policy
pub mod Runs
use mathlib.Core.Path.{subst}
use fast_sync.Prelude.{
  ℕ, zero, suc, ◌+◌, ◌-◌, ◌≤◌, ◌<◌, ◌≡◌, ◌≢◌, ◌⊎◌, inl, inr, refl, sym, ap, ◌∙◌, List, [], ◌∷◌,
  Bool, true, false, not, ◌&&◌, Option, none, some, arith, ltb, leb, ◌==◌, if◌then◌else◌,
  Bool-cases, length, get_or, modify, lt→ltb, le→leb, ap₂, length-modify, get_or-modify_self,
}
use fast_sync.HostTable.{Bucket, empty_bucket, Net, host_hash, host_lookup}
use fast_sync.HostTable.{key_at, stamp, intern_key}
use fast_sync.HostTable.Probing.{Canonical, probe_index-lt}
use fast_sync.HostTable.Canonical.{Interned, intern_key-Interned, kept-Canonical}
use fast_sync.HostTable.Occupancy.{host_hash-nonzero}
use fast_sync.HostTable.Keeps.{Locked, until_at}
use fast_sync.HostTable.Lasting.{host_lookup-some}
use fast_sync.DaemonLimits.{
  DaemonLimitRegistry, host_intern, intern_hashed, interned, claim_slot, claim_at, first_free,
  set_slot_pid, reclaim_slot, reclaim_pid, slot_of,
}
use fast_sync.DaemonLimits.Auth.{locks_out, locked_at, auth_locked, auth_record_failure, fail_at}
use fast_sync.DaemonLimits.Calls.{
  Call, claims, sets_pid, reclaims, reaps, recomputes, registers, asks, fails, succeeds, perform,
  run,
}
use fast_sync.DaemonLimits.Entering.{Same}
use fast_sync.DaemonLimits.Refusals.{host_intern-Same}
use fast_sync.DaemonLimits.Lockout.Runs.{Pending, AllInTime, run-Pending}
use fast_sync.DaemonLimits.Lockout.Steps.{recompute-Locked, register-Locked}
use fast_sync.DaemonLimits.Lockout.Answers.{
  auth_locked-Locked, record_failure-Locked, record_success-Locked,
}
use fast_sync.DaemonLimits.Lockout.Policy.{SamePolicy, perform-SamePolicy}

interned-Canonical :
    (r : DaemonLimitRegistry) (now key bucket : ℕ) (o : Option ℕ × List Bucket)
    (after : DaemonLimitRegistry)
    → Interned r.hosts key o
    → interned r now o ≡ (some bucket, after)
    → Canonical after.hosts key bucket
interned-Canonical r now key bucket (none, hosts) after known h =
    let clash : none ≡ some bucket = ap (λ (x : Option ℕ × DaemonLimitRegistry). x.0) h in cc
interned-Canonical r now key bucket (some b, hosts) after (c, size) h =
    let first : some b ≡ some bucket = ap (λ (x : Option ℕ × DaemonLimitRegistry). x.0) h in
    let eq : b ≡ bucket = cc first in
    subst (λ (x : DaemonLimitRegistry). Canonical x.hosts key bucket)
      (ap (λ (x : Option ℕ × DaemonLimitRegistry). x.1) h) (subst (Canonical hosts key) eq c)

host_intern-Canonical :
    (net : Net) (r : DaemonLimitRegistry) (peer_ip : List ℕ) (now key bucket : ℕ)
    (after : DaemonLimitRegistry)
    → host_hash net peer_ip ≡ some key
    → host_intern net r peer_ip now ≡ (some bucket, after)
    → Canonical after.hosts key bucket
unfolding host_intern
host_intern-Canonical net r peer_ip now key bucket after hashed h =
    interned-Canonical r now key bucket (intern_key r.hosts key now) after
      (intern_key-Interned r.hosts key now (host_hash-nonzero net peer_ip key hashed))
      (sym (ap (λ k. intern_hashed r k now) hashed) ∙ h)

-- The failure that reaches the threshold.
record_failure-Pending :
    (net : Net) (r : DaemonLimitRegistry) (peer_ip : List ℕ) (start key bucket : ℕ)
    (found : DaemonLimitRegistry)
    → host_hash net peer_ip ≡ some key
    → 0 < r.lockout_threshold
    → 0 < r.lockout_duration_sec
    → host_intern net r peer_ip start ≡ (some bucket, found)
    → r.lockout_threshold ≤ (get_or found.hosts bucket empty_bucket).fail + 1
    → Pending
        (auth_record_failure net r peer_ip start)
        key
        (start + r.lockout_duration_sec)
        r.lockout_threshold
        r.lockout_duration_sec
unfolding auth_record_failure fail_at
record_failure-Pending net r peer_ip start key bucket found hashed some_threshold some_duration h
      reached =
    let policy =
      subst (λ (x : Option ℕ × DaemonLimitRegistry). Same r x.1) h
        (host_intern-Same net r peer_ip start).0 in
    let c = host_intern-Canonical net r peer_ip start key bucket found hashed h in
    let counted = modify found.hosts bucket (λ b. record b { fail = suc b.fail }) in
    let locked =
      modify counted bucket (λ b. record b { until = start + found.lockout_duration_sec }) in
    let on : locks_out r ≡ true =
      ap₂ (λ a b. a && b) (lt→ltb _ _ some_threshold) (lt→ltb _ _ some_duration) in
    let at_threshold : leb found.lockout_threshold
          ((get_or found.hosts bucket empty_bucket).fail + 1)
        ≡ true =
      le→leb _ _ (omega (arith, reached, policy.threshold)) in
    let made : auth_record_failure net r peer_ip start ≡ record found { hosts = locked } =
      ap (λ b. if b then fail_at start (host_intern net r peer_ip start) else r) on
      ∙ ap (fail_at start) h
      ∙ ap (λ b. if b then record found { hosts = locked } else record found { hosts = counted })
          at_threshold in
    let inside : bucket < length counted = omega (
      arith,
      length-modify found.hosts bucket (λ b. record b { fail = suc b.fail }),
      subst (λ x. x < length found.hosts) c.at
          (probe_index-lt found.hosts key c.rounds (omega (arith, c.within))),
    ) in
    subst
      (λ x.
        Pending x key (start + r.lockout_duration_sec) r.lockout_threshold r.lockout_duration_sec)
      (sym made)
      (record {
        table = record {
          bucket = bucket;
          canonical =
              kept-Canonical counted bucket
                (λ b. record b { until = start + found.lockout_duration_sec }) key bucket
                (λ b. refl)
                (kept-Canonical found.hosts bucket (λ b. record b { fail = suc b.fail }) key bucket
                  (λ b. refl) c);
          lasts = omega (
            arith,
            policy.duration,
            ap (λ (b : Bucket). b.until)
                (get_or-modify_self counted bucket
                  (λ b. record b { until = start + found.lockout_duration_sec }) empty_bucket
                  inside),
          );
        };
        threshold_is = policy.threshold;
        duration_is = policy.duration;
      })

-- A source that is locked out is told so, with the seconds that are left.
Pending-auth_locked :
    (net : Net) (r : DaemonLimitRegistry) (peer_ip : List ℕ) (now key deadline : ℕ)
    (threshold duration : ℕ)
    → host_hash net peer_ip ≡ some key
    → 0 < threshold
    → 0 < duration
    → now < deadline
    → Pending r key deadline threshold duration
    → (left : ℕ) × ((auth_locked net r peer_ip now).0 ≡ some left) × (deadline ≤ now + left)
unfolding auth_locked locked_at
Pending-auth_locked net r peer_ip now key deadline threshold duration hashed some_threshold
      some_duration early p =
    let l = p.table in
    let stamped = modify r.hosts l.bucket (stamp now) in
    let inside : l.bucket < length r.hosts =
      subst (λ x. x < length r.hosts) l.canonical.at
        (probe_index-lt r.hosts key l.canonical.rounds (omega (arith, l.canonical.within))) in
    let kept : until_at stamped l.bucket ≡ until_at r.hosts l.bucket =
      ap (λ (b : Bucket). b.until)
        (get_or-modify_self r.hosts l.bucket (stamp now) empty_bucket inside) in
    let on : locks_out r ≡ true =
      ap₂ (λ a b. a && b)
        (lt→ltb 0 r.lockout_threshold (omega (arith, some_threshold, p.threshold_is)))
        (lt→ltb 0 r.lockout_duration_sec (omega (arith, some_duration, p.duration_is))) in
    let later : ltb now (until_at stamped l.bucket) ≡ true =
      lt→ltb now (until_at stamped l.bucket) (omega (arith, l.lasts, kept)) in
    (
      until_at stamped l.bucket - now,
      ap
            (λ b.
              (if◌then◌else◌ {A = Option ℕ × DaemonLimitRegistry} b
                (locked_at r now (host_lookup net r.hosts peer_ip now)) (none, r)).0)
            on
          ∙ ap (λ o. (locked_at r now o).0)
              (host_lookup-some net r.hosts peer_ip now key deadline hashed l)
          ∙ rw later refl,
      omega (arith, l.lasts, kept),
    )

-- With lockouts configured, a failure at the time `start` of a source that has a hash and gets a
-- bucket, and whose count of failures it brings to the threshold, locks the source out for the
-- configured duration: whatever calls the processes make before the deadline, other than a success of
-- a source with the same hash, `auth_locked` answers yes at every time before the deadline, with at
-- least the seconds that are left to it. The failures among these calls do not come before `start`.
pub lockout_lasts :
    (net : Net) (r : DaemonLimitRegistry) (peer_ip : List ℕ) (start key bucket : ℕ)
    (found : DaemonLimitRegistry) (calls : List Call) (now : ℕ)
    → host_hash net peer_ip ≡ some key
    → 0 < r.lockout_threshold
    → 0 < r.lockout_duration_sec
    → host_intern net r peer_ip start ≡ (some bucket, found)
    → r.lockout_threshold ≤ (get_or found.hosts bucket empty_bucket).fail + 1
    → AllInTime net key start (start + r.lockout_duration_sec) calls
    → now < start + r.lockout_duration_sec
    → (left : ℕ) × ((auth_locked net
          (run net (auth_record_failure net r peer_ip start) calls)
          peer_ip
          now).0
        ≡ some left)
      × (start + r.lockout_duration_sec ≤ now + left)
lockout_lasts net r peer_ip start key bucket found calls now hashed some_threshold some_duration h
      reached in_time early =
    Pending-auth_locked net (run net (auth_record_failure net r peer_ip start) calls) peer_ip now
      key (start + r.lockout_duration_sec) r.lockout_threshold r.lockout_duration_sec hashed
      some_threshold some_duration early
      (run-Pending net key start (start + r.lockout_duration_sec) calls
        (auth_record_failure net r peer_ip start) r.lockout_threshold r.lockout_duration_sec
        (host_hash-nonzero net peer_ip key hashed) (omega arith) in_time
        (record_failure-Pending net r peer_ip start key bucket found hashed some_threshold
          some_duration h reached))
