-- ===== src/DaemonLimits/Calls.antt =====
-- Runs of the registry: the calls that the daemon's processes make on it, one after the other.
use fast_sync.Prelude.{ℕ, List, [], ◌∷◌, Option}
use fast_sync.HostTable.{Net}
use fast_sync.DaemonLimits.{
  DaemonLimitRegistry, claim_slot, set_slot_pid, reclaim_slot, reclaim_pid, recompute, register,
}
use fast_sync.DaemonLimits.Auth.{auth_locked, auth_record_failure, auth_record_success}

-- A call with its arguments; the last number is the time.
pub data Call : Type 0 where
  claims : Call
  sets_pid : Option ℕ → ℕ → Call
  reclaims : Option ℕ → Call
  reaps : ℕ → Call
  recomputes : Call
  registers : Option ℕ → Option ℕ → List ℕ → ℕ → ℕ → Call
  asks : List ℕ → ℕ → Call
  fails : List ℕ → ℕ → Call
  succeeds : List ℕ → ℕ → Call

module _ (net : Net) where
  unfoldable pub perform : DaemonLimitRegistry → Call → DaemonLimitRegistry
  perform r claims = (claim_slot r).1
  perform r (sets_pid slot pid) = set_slot_pid r slot pid
  perform r (reclaims slot) = reclaim_slot r slot
  perform r (reaps pid) = reclaim_pid r pid
  perform r recomputes = recompute r
  perform r (registers slot module_index peer_ip module_cap now) =
      (register net r slot module_index peer_ip module_cap now).1
  perform r (asks peer_ip now) = (auth_locked net r peer_ip now).1
  perform r (fails peer_ip now) = auth_record_failure net r peer_ip now
  perform r (succeeds peer_ip now) = auth_record_success net r peer_ip now

  unfoldable pub run : DaemonLimitRegistry → List Call → DaemonLimitRegistry
  run r [] = r
  run r (call ∷ calls) = run (perform r call) calls
