-- ===== src/DaemonLimits/Tests.antt =====
-- Runs of the registry and instances of its theorems.
use fast_sync.Prelude.{
  ℕ, List, [], ◌∷◌, Bool, true, ◌≡◌, ◌≢◌, refl, ap, Option, none, some, arith, ◌+◌, ◌≤◌, ◌⊎◌,
  get_or, length,
}
use fast_sync.HostTable.{
  active_at, Net, parse_peer_ip, fnv_bytes, host_hash, probe_index, reclaimable, intern_scan,
  intern_key,
}
use fast_sync.DaemonLimits.{
  DaemonLimitRegistry, DaemonLimitResult, ok, module_full, free_slot, claim_slot, recompute,
  tracks_hosts, host_intern, enter_host, enter_module, admissible, register_at, register,
}
use fast_sync.DaemonLimits.Auth.{auth_locked, fail_at, auth_record_failure}
use fast_sync.DaemonLimits.Calls.{
  Call, claims, recomputes, registers, asks, fails, succeeds, perform, run,
}
use fast_sync.DaemonLimits.Create.{
  create, fresh, round_up, pow2_loop, next_pow2, clamp, slot_count, module_count, host_slots,
  map_size, layout,
}
use fast_sync.DaemonLimits.Create.Fits.{create-InOrder, Sized, InOrder}
use fast_sync.DaemonLimits.Counts.{on_module, on_host, count}
use fast_sync.DaemonLimits.Recount.{recompute-count}
use fast_sync.DaemonLimits.Entering.{Same}
use fast_sync.DaemonLimits.Refusals.{Reason, register-refused}
use fast_sync.DaemonLimits.Caps.{SourceWithin, admitted_within_caps}
use fast_sync.DaemonLimits.Lockout.{lockout_lasts}

-- Addresses are four bytes.
abbrev net : Net
net = record { inet_pton_4 = λ s. some s; inet_pton_6 = λ s. none }

abbrev peer : List ℕ
peer = 10 ∷ 0 ∷ 0 ∷ 7 ∷ []

abbrev other : List ℕ
other = 10 ∷ 0 ∷ 0 ∷ 8 ∷ []

-- Two modules, two connections a source, lockout after two failures for 100 seconds.
abbrev registry : DaemonLimitRegistry
registry = fresh 16 2 2 2 100

abbrev two_claims : List Call
two_claims = claims ∷ claims ∷ registers (some 0) (some 1) peer 2 10 ∷ []

module_caps :
    (register net (run net registry two_claims) (some 1) (some 1) peer 1 11).0 ≡ module_full
unfolding register register_at admissible enter_module enter_host tracks_hosts host_intern
    intern_key intern_scan probe_index host_hash parse_peer_ip fnv_bytes run perform claim_slot
    slot_count module_count host_slots next_pow2 pow2_loop clamp reclaimable
module_caps = refl

admits : (register net (run net registry two_claims) (some 1) (some 1) peer 2 11).0 ≡ ok
unfolding register register_at admissible enter_module enter_host tracks_hosts host_intern
    intern_key intern_scan probe_index host_hash parse_peer_ip fnv_bytes run perform claim_slot
    slot_count module_count host_slots next_pow2 pow2_loop clamp reclaimable
admits = refl

abbrev granted : ℕ → Bool
granted bytes = true

abbrev settled : DaemonLimitRegistry
settled = run net registry two_claims

abbrev admission : DaemonLimitResult × DaemonLimitRegistry
admission = register net settled (some 1) (some 1) peer 2 11

admitted_within_caps_example :
    ((◌≡◌ {A = ℕ} 2 0) ⊎ (count (on_module 1) admission.1.slots ≤ 2))
    × SourceWithin
        (run net registry two_claims)
        11
        (host_hash net peer)
        (get_or admission.1.slots 1 free_slot).host
        admission.1
unfolding register register_at admissible enter_module enter_host tracks_hosts host_intern
    intern_key intern_scan probe_index host_hash parse_peer_ip fnv_bytes run perform claim_slot
    slot_count module_count host_slots next_pow2 pow2_loop clamp reclaimable create
admitted_within_caps_example =
    admitted_within_caps net granted 16 2 2 2 100 registry two_claims 1 1 peer 2 11 admission.1 refl
      refl

abbrev refusal : DaemonLimitResult × DaemonLimitRegistry
refusal = register net settled (some 1) (some 1) other 1 11

full_module : refusal.0 ≢ ok
unfolding register register_at admissible enter_module enter_host tracks_hosts host_intern
    intern_key intern_scan probe_index host_hash parse_peer_ip fnv_bytes run perform claim_slot
    slot_count module_count host_slots next_pow2 pow2_loop clamp reclaimable
full_module h = cc

register-refused_example :
    Same settled refusal.1
    × Reason (host_hash net other) settled (some 1) (some 1) 1 refusal.0 refusal.1
unfolding register register_at admissible enter_module enter_host tracks_hosts host_intern
    intern_key intern_scan probe_index host_hash parse_peer_ip fnv_bytes run perform claim_slot
    slot_count module_count host_slots next_pow2 pow2_loop clamp reclaimable
register-refused_example = register-refused net settled (some 1) (some 1) other 1 11 full_module

recompute-count_example :
    (get_or (recompute settled).module_active 1 0 ≡ count (on_module 1) settled.slots)
    × (active_at (recompute settled).hosts 5 ≡ count (on_host 5) settled.slots)
    × ((recompute settled).slots ≡ settled.slots)
unfolding register register_at admissible enter_module enter_host tracks_hosts host_intern
    intern_key intern_scan probe_index host_hash parse_peer_ip fnv_bytes run perform claim_slot
    slot_count module_count host_slots next_pow2 pow2_loop clamp reclaimable
recompute-count_example = recompute-count settled 1 5 (omega arith) (omega arith)

create-InOrder_example :
    Sized registry
    × InOrder
        (layout 4096 (length registry.slots) 2 (length registry.hosts))
        (length registry.slots)
        2
        (length registry.hosts)
        (map_size (length registry.slots) 2 (length registry.hosts))
unfolding slot_count module_count host_slots next_pow2 pow2_loop clamp create map_size round_up
create-InOrder_example = create-InOrder granted 16 2 2 2 100 4096 registry refl refl (omega arith)

-- One failure at the time 50, and one at 60 which reaches the threshold.
abbrev failed_once : DaemonLimitRegistry
failed_once = auth_record_failure net registry peer 50

-- What the second failure finds: the bucket of the peer.
abbrev found_at : Option ℕ × DaemonLimitRegistry
found_at = host_intern net failed_once peer 60

abbrev peer_key : ℕ
peer_key = 5546974324524313752

abbrev meanwhile : List Call
meanwhile =
    claims
    ∷ registers (some 0) (some 1) other 2 70
    ∷ asks peer 80
    ∷ fails peer 90
    ∷ recomputes
    ∷ succeeds other 100
    ∷ []

abbrev key_or : Option ℕ → ℕ
key_or none = 0
key_or (some key) = key

other_key : host_hash net other ≢ some peer_key
unfolding host_hash parse_peer_ip fnv_bytes
other_key h = let same = ap key_or h in omega arith

-- The peer is told at the time 150 that it is locked out until 160.
lockout_lasts_example :
    (left : ℕ) × ((auth_locked net
        (run net (auth_record_failure net failed_once peer 60) meanwhile)
        peer
        150).0
      ≡ some left)
    × (160 ≤ 150 + left)
unfolding register register_at admissible enter_module enter_host tracks_hosts host_intern
    intern_key intern_scan probe_index host_hash parse_peer_ip fnv_bytes run perform claim_slot
    slot_count module_count host_slots next_pow2 pow2_loop clamp reclaimable auth_record_failure
    fail_at
lockout_lasts_example =
    lockout_lasts net failed_once peer 60 peer_key 24 found_at.1 meanwhile 150 refl (omega arith)
      (omega arith) refl (omega arith)
      (tt, (omega arith, (omega arith, ((omega arith, omega arith), (tt, (other_key, tt))))))
      (omega arith)
