-- ===== src/DaemonLimits/Lockout/Runs.antt =====
-- Runs of calls before the deadline keep a lockout.
use fast_sync.Prelude.{
  ℕ, ◌+◌, ◌≤◌, ◌<◌, ◌≡◌, ◌≢◌, ◌∙◌, List, [], ◌∷◌, Bool, true, false, Option, none, some, arith,
  ◌==◌, if◌then◌else◌,
}
use fast_sync.HostTable.{Net, host_hash}
use fast_sync.HostTable.Keeps.{Locked}
use fast_sync.DaemonLimits.{
  DaemonLimitRegistry, claim_slot, claim_at, first_free, set_slot_pid, reclaim_slot, reclaim_pid,
  slot_of,
}
use fast_sync.DaemonLimits.Calls.{
  Call, claims, sets_pid, reclaims, reaps, recomputes, registers, asks, fails, succeeds, perform,
  run,
}
use fast_sync.DaemonLimits.Refusals.{host_intern-Same}
use fast_sync.DaemonLimits.Lockout.Steps.{recompute-Locked, register-Locked}
use fast_sync.DaemonLimits.Lockout.Answers.{
  auth_locked-Locked, record_failure-Locked, record_success-Locked,
}
use fast_sync.DaemonLimits.Lockout.Policy.{perform-SamePolicy}

-- The source with the key is locked out up to the deadline, under the policy of the registry.
pub record Pending (r : DaemonLimitRegistry) (key deadline threshold duration : ℕ) : Type 0 where
  pub table : Locked r.hosts key deadline
  pub threshold_is : r.lockout_threshold ≡ threshold
  pub duration_is : r.lockout_duration_sec ≡ duration

module _ (net : Net) (key start deadline : ℕ) where
  -- The calls from `start` on, before the deadline, without a success of the source.
  abbrev pub InTime : Call → Type 0
  InTime claims = Unit
  InTime (sets_pid slot pid) = Unit
  InTime (reclaims slot) = Unit
  InTime (reaps pid) = Unit
  InTime recomputes = Unit
  InTime (registers slot module_index peer_ip module_cap now) = now < deadline
  InTime (asks peer_ip now) = now < deadline
  InTime (fails peer_ip now) = (start ≤ now) × (now < deadline)
  InTime (succeeds peer_ip now) = host_hash net peer_ip ≢ some key

  abbrev pub AllInTime : List Call → Type 0
  AllInTime [] = Unit
  AllInTime (call ∷ calls) = InTime call × AllInTime calls

  perform-Locked :
      (r : DaemonLimitRegistry) (call : Call)
      → key ≢ 0
      → deadline ≤ start + r.lockout_duration_sec
      → InTime call
      → Locked r.hosts key deadline
      → Locked (perform net r call).hosts key deadline
  unfolding perform claim_slot set_slot_pid reclaim_slot reclaim_pid
  perform-Locked r claims nonzero long in_time l = claimed_kept (first_free r.slots)
    where
      claimed_kept : (o : Option ℕ) → Locked (claim_at r o).1.hosts key deadline
      claimed_kept none = l
      claimed_kept (some i) = l
  perform-Locked r (sets_pid none pid) nonzero long in_time l = l
  perform-Locked r (sets_pid (some i) pid) nonzero long in_time l = l
  perform-Locked r (reclaims none) nonzero long in_time l = l
  perform-Locked r (reclaims (some i)) nonzero long in_time l = l
  perform-Locked r (reaps pid) nonzero long in_time l = reaped_kept (pid == 0) (slot_of r.slots pid)
    where
      reaped_kept :
          (b : Bool) (o : Option ℕ)
          → Locked
              (if◌then◌else◌ {A = DaemonLimitRegistry} b r (reclaim_slot r o)).hosts
              key
              deadline
      reaped_kept true o = l
      reaped_kept false none = l
      reaped_kept false (some i) = l
  perform-Locked r recomputes nonzero long in_time l = recompute-Locked key deadline r l
  perform-Locked r (registers slot m peer_ip module_cap now) nonzero long in_time l =
      register-Locked key deadline nonzero net r slot m peer_ip module_cap now in_time l
  perform-Locked r (asks peer_ip now) nonzero long in_time l =
      auth_locked-Locked key deadline net r peer_ip now in_time l
  perform-Locked r (fails peer_ip now) nonzero long in_time l =
      let same = (host_intern-Same net r peer_ip now).0 in
      record_failure-Locked key deadline net r peer_ip now nonzero in_time.1
        (omega (arith, in_time.0, same.duration)) l
  perform-Locked r (succeeds peer_ip now) nonzero long in_time l =
      record_success-Locked key deadline net r peer_ip now in_time l

  pub run-Pending :
      (calls : List Call) (r : DaemonLimitRegistry) (threshold duration : ℕ)
      → key ≢ 0
      → deadline ≤ start + duration
      → AllInTime calls
      → Pending r key deadline threshold duration
      → Pending (run net r calls) key deadline threshold duration
  unfolding run
  run-Pending [] r threshold duration nonzero long in_time p = p
  run-Pending (call ∷ calls) r threshold duration nonzero long in_time p =
      let same = perform-SamePolicy net r call in
      run-Pending calls (perform net r call) threshold duration nonzero long in_time.1 (record {
        table =
            perform-Locked r call nonzero (omega (arith, long, p.duration_is)) in_time.0 p.table;
        threshold_is = same.threshold ∙ p.threshold_is;
        duration_is = same.duration ∙ p.duration_is;
      })
