-- ===== src/DaemonLimits/Lockout/Policy.antt =====
-- No call changes the lockout's threshold or duration.
use mathlib.Core.Path.{subst}
use fast_sync.Prelude.{
  ℕ, ◌≡◌, inl, inr, refl, sym, List, [], ◌∷◌, ◌==◌, Option, none, some, Bool-cases,
}
use fast_sync.HostTable.{Net}
use fast_sync.DaemonLimits.{
  DaemonLimitRegistry, DaemonLimitResult, ok, module_full, host_full, unavailable, Slot, SlotState,
  free, claimed, registered, claim_at, claim_slot, first_free, set_slot_pid, reclaim_slot,
  reclaim_pid, slot_of, count_slot, tally, recompute,
}
use fast_sync.DaemonLimits.Calls.{
  Call, claims, sets_pid, reclaims, reaps, recomputes, registers, asks, fails, succeeds, perform,
}
use fast_sync.DaemonLimits.Entering.{Same}
use fast_sync.DaemonLimits.Refusals.{Decided, register-Decided}
use fast_sync.DaemonLimits.Runs.{auth_locked-Same, record_failure-Same, record_success-Same}

pub record SamePolicy (r r' : DaemonLimitRegistry) : Type 0 where
  pub threshold : r'.lockout_threshold ≡ r.lockout_threshold
  pub duration : r'.lockout_duration_sec ≡ r.lockout_duration_sec

SamePolicy-refl : (r : DaemonLimitRegistry) → SamePolicy r r
SamePolicy-refl r = record { threshold = refl; duration = refl }

pub Same-SamePolicy : (r r' : DaemonLimitRegistry) → Same r r' → SamePolicy r r'
Same-SamePolicy r r' s = record { threshold = s.threshold; duration = s.duration }

count_slot-SamePolicy :
    (state : SlotState) (s : Slot) (r r' : DaemonLimitRegistry)
    → SamePolicy (count_slot state s r) r'
    → SamePolicy r r'
count_slot-SamePolicy free s r r' p = p
count_slot-SamePolicy claimed s r r' p = p
count_slot-SamePolicy registered s r r' p = record {
  threshold = p.threshold;
  duration = p.duration;
}

tally-SamePolicy : (slots : List Slot) (r : DaemonLimitRegistry) → SamePolicy r (tally r slots)
unfolding tally
tally-SamePolicy [] r = SamePolicy-refl r
tally-SamePolicy (s ∷ slots) r =
    count_slot-SamePolicy s.state s r _ (tally-SamePolicy slots (count_slot s.state s r))

recompute-SamePolicy : (r : DaemonLimitRegistry) → SamePolicy r (recompute r)
unfolding recompute
recompute-SamePolicy r =
    let p = tally-SamePolicy r.slots _ in record { threshold = p.threshold; duration = p.duration }

Decided-SamePolicy :
    (now : ℕ) (hash : Option ℕ) (r : DaemonLimitRegistry) (slot module_index : Option ℕ)
    (module_cap : ℕ) (out : DaemonLimitResult × DaemonLimitRegistry)
    → Decided now hash r slot module_index module_cap out
    → SamePolicy r out.1
Decided-SamePolicy now hash r slot module_index module_cap (ok, after) d =
    subst (SamePolicy r) (sym d.entered.0)
      (record { threshold = d.same.threshold; duration = d.same.duration })
Decided-SamePolicy now hash r slot module_index module_cap (module_full, after) d =
    subst (SamePolicy r) (sym d.entered.0) (Same-SamePolicy r d.before d.same)
Decided-SamePolicy now hash r slot module_index module_cap (host_full, after) d =
    subst (SamePolicy r) (sym d.entered.0) (Same-SamePolicy r d.before d.same)
Decided-SamePolicy now hash r slot module_index module_cap (unavailable, after) d = absurd d.entered

claim_at-SamePolicy : (r : DaemonLimitRegistry) (o : Option ℕ) → SamePolicy r (claim_at r o).1
claim_at-SamePolicy r none = SamePolicy-refl r
claim_at-SamePolicy r (some i) = record { threshold = refl; duration = refl }

reclaim_slot-SamePolicy : (r : DaemonLimitRegistry) (o : Option ℕ) → SamePolicy r (reclaim_slot r o)
unfolding reclaim_slot
reclaim_slot-SamePolicy r none = SamePolicy-refl r
reclaim_slot-SamePolicy r (some i) = record { threshold = refl; duration = refl }

pub perform-SamePolicy :
    (net : Net) (r : DaemonLimitRegistry) (call : Call) → SamePolicy r (perform net r call)
unfolding perform claim_slot set_slot_pid reclaim_pid
perform-SamePolicy net r claims = claim_at-SamePolicy r (first_free r.slots)
perform-SamePolicy net r (sets_pid none pid) = SamePolicy-refl r
perform-SamePolicy net r (sets_pid (some i) pid) = record { threshold = refl; duration = refl }
perform-SamePolicy net r (reclaims slot) = reclaim_slot-SamePolicy r slot
perform-SamePolicy net r (reaps pid) = elim (Bool-cases (pid == 0)) [
  | inl e ↦ rw e (SamePolicy-refl r)
  | inr e ↦ rw e (reclaim_slot-SamePolicy r (slot_of r.slots pid))
]
perform-SamePolicy net r recomputes = recompute-SamePolicy r
perform-SamePolicy net r (registers slot module_index peer_ip module_cap now) =
    elim (register-Decided net r slot module_index peer_ip module_cap now) [
      | inl (e, out) ↦
          subst (λ (o : DaemonLimitResult × DaemonLimitRegistry). SamePolicy r o.1) (sym out)
            (SamePolicy-refl r)
      | inr d ↦ Decided-SamePolicy _ _ r slot module_index module_cap _ d
    ]
perform-SamePolicy net r (asks peer_ip now) =
    Same-SamePolicy r _ (auth_locked-Same net r peer_ip now)
perform-SamePolicy net r (fails peer_ip now) =
    Same-SamePolicy r _ (record_failure-Same net r peer_ip now)
perform-SamePolicy net r (succeeds peer_ip now) =
    Same-SamePolicy r _ (record_success-Same net r peer_ip now)
