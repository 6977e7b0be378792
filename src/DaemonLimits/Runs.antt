-- ===== src/DaemonLimits/Runs.antt =====
-- No call lets the counters fall behind the registered slots.
use mathlib.Core.Path.{subst}
use fast_sync.Prelude.{
  ℕ, suc, ◌+◌, ◌-◌, ◌%◌, ◌^◌, ◌≤◌, ◌<◌, ◌≡◌, refl, sym, ◌∙◌, List, [], ◌∷◌, Bool, true, false, not,
  Option, none, some, arith, ltb, leb, ◌==◌, inl, inr, Bool-cases, if◌then◌else◌, length, get_or,
  modify,
}
use fast_sync.HostTable.{Net, Bucket, active_at, host_lookup, empty_bucket}
use fast_sync.HostTable.Occupancy.{host_lookup-active, active_at-keep}
use fast_sync.DaemonLimits.{
  DaemonLimitRegistry, DaemonLimitResult, ok, module_full, host_full, unavailable, free_slot,
  is_claimed, claim_at, claim_slot, claim, first_free, set_slot_pid, reclaim_slot, release,
  reclaim_pid, slot_of, register, host_intern,
}
use fast_sync.DaemonLimits.Auth.{
  auth_locked, locked_at, clear, locks_out, auth_record_failure, fail_at, auth_record_success,
  clear_at,
}
use fast_sync.DaemonLimits.Calls.{
  Call, claims, sets_pid, reclaims, reaps, recomputes, registers, asks, fails, succeeds, perform,
  run,
}
use fast_sync.DaemonLimits.Counts.{on_module, on_host, count}
use fast_sync.DaemonLimits.Covers.{Covers, dropped-Covers, pid-Covers, publish-Covers}
use fast_sync.DaemonLimits.Recount.{recompute-Covers}
use fast_sync.DaemonLimits.Entering.{Same, Same-refl}
use fast_sync.DaemonLimits.Refusals.{host_intern-Same, Decided, register-Decided}

Same-Covers : (r r' : DaemonLimitRegistry) → Same r r' → Covers r → Covers r'
Same-Covers r r' s c = record {
  modules = λ m.
      subst (λ slots. count (on_module m) slots ≤ get_or r'.module_active m 0) (sym s.slots)
        (subst (λ a. count (on_module m) r.slots ≤ get_or a m 0) (sym s.module_active)
          (c.modules m));
  sources = λ h.
      subst (λ slots. count (on_host h) slots ≤ active_at r'.hosts h) (sym s.slots)
        (omega (arith, c.sources h, s.sources h));
}

-- A change of the table alone that keeps the occupancy.
table-Same :
    (r : DaemonLimitRegistry) (hosts : List Bucket)
    → ((h : ℕ) → active_at hosts h ≡ active_at r.hosts h)
    → Same r (record r { hosts = hosts })
table-Same r hosts same = record {
  slots = refl;
  module_active = refl;
  sources = same;
  cap = refl;
  threshold = refl;
  duration = refl;
}

Same-trans : (r r' r'' : DaemonLimitRegistry) → Same r r' → Same r' r'' → Same r r''
Same-trans r r' r'' s t = record {
  slots = t.slots ∙ s.slots;
  module_active = t.module_active ∙ s.module_active;
  sources = λ h. t.sources h ∙ s.sources h;
  cap = t.cap ∙ s.cap;
  threshold = t.threshold ∙ s.threshold;
  duration = t.duration ∙ s.duration;
}

locked_at-Same :
    (r : DaemonLimitRegistry) (now : ℕ) (o : Option ℕ × List Bucket)
    → ((h : ℕ) → active_at o.1 h ≡ active_at r.hosts h)
    → Same r (locked_at r now o).1
unfolding locked_at
locked_at-Same r now (none, hosts) same = table-Same r hosts same
locked_at-Same r now (some bucket, hosts) same =
    go (ltb now (get_or hosts bucket empty_bucket).until)
      (not ((get_or hosts bucket empty_bucket).until == 0))
  where
    go :
        (b c : Bool)
        → Same r
            (if◌then◌else◌ {A = Option ℕ × DaemonLimitRegistry} b
              (some ((get_or hosts bucket empty_bucket).until - now), record r { hosts = hosts })
              (if c
                then (none, record r { hosts = modify hosts bucket clear })
                else (none, record r { hosts = hosts }))).1
    go true c = table-Same r hosts same
    go false true =
        table-Same r (modify hosts bucket clear)
          (λ h. active_at-keep hosts bucket clear h (λ b. refl) ∙ same h)
    go false false = table-Same r hosts same

clear_at-Same :
    (r : DaemonLimitRegistry) (o : Option ℕ × List Bucket)
    → ((h : ℕ) → active_at o.1 h ≡ active_at r.hosts h)
    → Same r (clear_at r o)
unfolding clear_at
clear_at-Same r (none, hosts) same = table-Same r hosts same
clear_at-Same r (some bucket, hosts) same =
    table-Same r (modify hosts bucket clear)
      (λ h. active_at-keep hosts bucket clear h (λ b. refl) ∙ same h)

fail_at-Same : (now : ℕ) (o : Option ℕ × DaemonLimitRegistry) → Same o.1 (fail_at now o)
unfolding fail_at
fail_at-Same now (none, r) = Same-refl r
fail_at-Same now (some bucket, r) =
    go (leb r.lockout_threshold ((get_or r.hosts bucket empty_bucket).fail + 1))
  where
    once :
        (h : ℕ)
        → active_at (modify r.hosts bucket (λ b. record b { fail = suc b.fail })) h
          ≡ active_at r.hosts h
    once h = active_at-keep r.hosts bucket (λ b. record b { fail = suc b.fail }) h (λ b. refl)

    go :
        (b : Bool)
        → Same r (
            if b
            then record r {
              hosts =
                  modify
                    (modify r.hosts bucket (λ b. record b { fail = suc b.fail }))
                    bucket
                    (λ b. record b { until = now + r.lockout_duration_sec });
            }
            else record r { hosts = modify r.hosts bucket (λ b. record b { fail = suc b.fail }) })
    go true = table-Same r _ (λ h.
        active_at-keep (modify r.hosts bucket (λ b. record b { fail = suc b.fail })) bucket
          (λ b. record b { until = now + r.lockout_duration_sec }) h (λ b. refl)
        ∙ once h)
    go false = table-Same r _ once

pub auth_locked-Same :
    (net : Net) (r : DaemonLimitRegistry) (peer_ip : List ℕ) (now : ℕ)
    → Same r (auth_locked net r peer_ip now).1
unfolding auth_locked
auth_locked-Same net r peer_ip now = go (locks_out r)
  where
    go :
        (b : Bool)
        → Same r (if b then locked_at r now (host_lookup net r.hosts peer_ip now) else (none, r)).1
    go true =
        locked_at-Same r now (host_lookup net r.hosts peer_ip now)
          (λ h. host_lookup-active net r.hosts peer_ip now h)
    go false = Same-refl r

pub record_failure-Same :
    (net : Net) (r : DaemonLimitRegistry) (peer_ip : List ℕ) (now : ℕ)
    → Same r (auth_record_failure net r peer_ip now)
unfolding auth_record_failure
record_failure-Same net r peer_ip now = go (locks_out r)
  where
    go : (b : Bool) → Same r (if b then fail_at now (host_intern net r peer_ip now) else r)
    go true =
        Same-trans r (host_intern net r peer_ip now).1 _ (host_intern-Same net r peer_ip now).0
          (fail_at-Same now (host_intern net r peer_ip now))
    go false = Same-refl r

pub record_success-Same :
    (net : Net) (r : DaemonLimitRegistry) (peer_ip : List ℕ) (now : ℕ)
    → Same r (auth_record_success net r peer_ip now)
unfolding auth_record_success
record_success-Same net r peer_ip now =
    clear_at-Same r (host_lookup net r.hosts peer_ip now)
      (λ h. host_lookup-active net r.hosts peer_ip now h)

Decided-Covers :
    (now : ℕ) (hash : Option ℕ) (r : DaemonLimitRegistry) (slot module_index : Option ℕ)
    (module_cap : ℕ) (out : DaemonLimitResult × DaemonLimitRegistry)
    → Decided now hash r slot module_index module_cap out
    → Covers r
    → Covers out.1
Decided-Covers now hash r slot module_index module_cap (ok, after) d c =
    let back = sym d.same.slots in
    subst Covers (sym d.entered.0) (
      publish-Covers d.before d.i d.m d.host
        (subst (λ slots. d.i < length slots) back d.usable.in_slots)
        (subst (λ slots. is_claimed (get_or slots d.i free_slot).state ≡ true) back
          d.usable.is_ours)
        (subst (λ a. d.m < length a) (sym d.same.module_active) d.usable.in_modules) d.in_table
        (Same-Covers r d.before d.same c))
Decided-Covers now hash r slot module_index module_cap (module_full, after) d c =
    subst Covers (sym d.entered.0) (Same-Covers r d.before d.same c)
Decided-Covers now hash r slot module_index module_cap (host_full, after) d c =
    subst Covers (sym d.entered.0) (Same-Covers r d.before d.same c)
Decided-Covers now hash r slot module_index module_cap (unavailable, after) d c = absurd d.entered

module _ (net : Net) where
  pub register-Covers :
      (r : DaemonLimitRegistry) (slot module_index : Option ℕ) (peer_ip : List ℕ)
      (module_cap now : ℕ)
      → Covers r
      → Covers (register net r slot module_index peer_ip module_cap now).1
  register-Covers r slot module_index peer_ip module_cap now c =
      elim (register-Decided net r slot module_index peer_ip module_cap now) [
        | inl (e, out) ↦
            subst (λ (o : DaemonLimitResult × DaemonLimitRegistry). Covers o.1) (sym out) c
        | inr d ↦ Decided-Covers _ _ r slot module_index module_cap _ d c
      ]

  claim_at-Covers : (r : DaemonLimitRegistry) (o : Option ℕ) → Covers r → Covers (claim_at r o).1
  claim_at-Covers r none c = c
  claim_at-Covers r (some i) c = dropped-Covers r i claim (λ s. refl) c

  reclaim_slot-Covers :
      (r : DaemonLimitRegistry) (slot : Option ℕ) → Covers r → Covers (reclaim_slot r slot)
  unfolding reclaim_slot
  reclaim_slot-Covers r none c = c
  reclaim_slot-Covers r (some i) c = dropped-Covers r i release (λ s. refl) c

  set_slot_pid-Covers :
      (r : DaemonLimitRegistry) (slot : Option ℕ) (pid : ℕ)
      → Covers r
      → Covers (set_slot_pid r slot pid)
  unfolding set_slot_pid
  set_slot_pid-Covers r none pid c = c
  set_slot_pid-Covers r (some i) pid c = pid-Covers r i (pid % 2 ^ 32) c

  reclaim_pid-Covers : (r : DaemonLimitRegistry) (pid : ℕ) → Covers r → Covers (reclaim_pid r pid)
  unfolding reclaim_pid
  reclaim_pid-Covers r pid c = elim (Bool-cases (pid == 0)) [
    | inl e ↦ rw e c
    | inr e ↦ rw e (reclaim_slot-Covers r (slot_of r.slots pid) c)
  ]

  -- A slot that is registered is counted, whatever call was made.
  pub perform-Covers :
      (r : DaemonLimitRegistry) (call : Call) → Covers r → Covers (perform net r call)
  unfolding perform claim_slot
  perform-Covers r claims c = claim_at-Covers r (first_free r.slots) c
  perform-Covers r (sets_pid slot pid) c = set_slot_pid-Covers r slot pid c
  perform-Covers r (reclaims slot) c = reclaim_slot-Covers r slot c
  perform-Covers r (reaps pid) c = reclaim_pid-Covers r pid c
  perform-Covers r recomputes c = recompute-Covers r c
  perform-Covers r (registers slot module_index peer_ip module_cap now) c =
      register-Covers r slot module_index peer_ip module_cap now c
  perform-Covers r (asks peer_ip now) c = Same-Covers r _ (auth_locked-Same net r peer_ip now) c
  perform-Covers r (fails peer_ip now) c = Same-Covers r _ (record_failure-Same net r peer_ip now) c
  perform-Covers r (succeeds peer_ip now) c =
      Same-Covers r _ (record_success-Same net r peer_ip now) c

  pub run-Covers :
      (calls : List Call) (r : DaemonLimitRegistry) → Covers r → Covers (run net r calls)
  unfolding run
  run-Covers [] r c = c
  run-Covers (call ∷ calls) r c = run-Covers calls (perform net r call) (perform-Covers r call c)
