-- ===== src/DaemonLimits/Caps.antt =====
-- Runs of the registry keep the caps.
use mathlib.Core.Path.{subst}
use fast_sync.Prelude.{
  ℕ, zero, suc, ◌+◌, ◌≤◌, ◌<◌, ◌≡◌, refl, sym, ap, ◌∙◌, List, Bool, true, false, Option, none, some,
  arith, ◌==◌, ◌⊎◌, inl, inr, length, get_or, modify, replicate, get_or-modify_self,
}
use fast_sync.HostTable.{Net, active_at, host_hash}
use fast_sync.DaemonLimits.{
  DaemonLimitRegistry, DaemonLimitResult, ok, unavailable, Slot, free_slot, register, publish,
}
use fast_sync.DaemonLimits.Calls.{Call, run}
use fast_sync.DaemonLimits.Create.{create, slot_count}
use fast_sync.DaemonLimits.Create.Fits.{create-eq_fresh}
use fast_sync.DaemonLimits.Counts.{
  on_module, on_host, bit, count, is_at, bump_module_lem, bump_host_lem,
}
use fast_sync.DaemonLimits.Covers.{Covers}
use fast_sync.DaemonLimits.Sources.{IsBucketOf, admitted-IsBucketOf}
use fast_sync.DaemonLimits.Refusals.{Decided, register-Decided}
use fast_sync.DaemonLimits.Runs.{register-Covers, run-Covers}

count_fresh : (p : Slot → Bool) (n : ℕ) → p free_slot ≡ false → count p (replicate n free_slot) ≡ 0
count_fresh p zero h = refl
count_fresh p (suc n) h = omega (arith, count_fresh p n h, ap bit h)

create-Covers :
    (mmap : ℕ → Bool) (max_slots modules per_host threshold duration : ℕ) (r : DaemonLimitRegistry)
    → create mmap max_slots modules per_host threshold duration ≡ some r
    → Covers r
create-Covers mmap max_slots modules per_host threshold duration r h =
    let eq = create-eq_fresh mmap max_slots modules per_host threshold duration r h in
    subst Covers eq (record {
      modules = λ m. omega (arith, count_fresh (on_module m) (slot_count max_slots) refl);
      sources = λ h. omega (arith, count_fresh (on_host h) (slot_count max_slots) refl);
    })

bit-le : (b : Bool) → bit b ≤ 1
bit-le true = omega arith
bit-le false = omega arith

within_caps_Decided :
    (now : ℕ) (hash : Option ℕ) (r : DaemonLimitRegistry) (slot m module_cap : ℕ)
    (after : DaemonLimitRegistry)
    → Decided now hash r (some slot) (some m) module_cap (ok, after)
    → Covers after
    → (0 < module_cap → count (on_module m) after.slots ≤ module_cap)
      × ((h : ℕ)
          → (get_or after.slots slot free_slot).host ≡ some h
          → 0 < after.per_host_cap
          → count (on_host h) after.slots ≤ after.per_host_cap)
      × IsBucketOf r now hash ((get_or after.slots slot free_slot).host, after)
within_caps_Decided now hash r slot m module_cap after d c =
    let slot_is : slot ≡ d.i = cc d.usable.slot_is in
    let module_is : m ≡ d.m = cc d.usable.module_is in
    let (at, below, below_host) = d.entered in
    let slots_same = d.same.slots in
    let inside : d.i < length d.before.slots =
      subst (λ slots. d.i < length slots) (sym slots_same) d.usable.in_slots in
    let known : d.m < length d.before.module_active =
      subst (λ a. d.m < length a) (sym d.same.module_active) d.usable.in_modules in
    let modules_at : get_or after.module_active m 0 ≤ get_or d.before.module_active d.m 0 + 1 =
      rw (at, module_is)
        (omega (
          arith,
          bump_module_lem (some d.m) d.before.module_active d.m known,
          bit-le (d.m == d.m),
        )) in
    let entry : (get_or after.slots slot free_slot).host ≡ d.host =
      ap (λ (s : Slot). s.host)
        (ap (λ (x : DaemonLimitRegistry). get_or x.slots slot free_slot) at
          ∙ ap (λ i. get_or (modify d.before.slots d.i (publish d.m d.host)) i free_slot) slot_is
          ∙ get_or-modify_self d.before.slots d.i (publish d.m d.host) free_slot inside) in
    (
      λ capped. omega (arith, c.modules m, modules_at, below capped),
      λ h here capped.
          let published : d.host ≡ some h = sym entry ∙ here in
          let same_cap : after.per_host_cap ≡ d.before.per_host_cap =
            ap (λ (x : DaemonLimitRegistry). x.per_host_cap) at in
          let sources_at : active_at after.hosts h
              ≡ active_at d.before.hosts h + bit (is_at d.host h) =
            ap (λ (x : DaemonLimitRegistry). active_at x.hosts h) at
            ∙ bump_host_lem d.host d.before.hosts h (d.in_table h published) in
          omega (
            arith,
            c.sources h,
            sources_at,
            bit-le (is_at d.host h),
            same_cap,
            below_host h published (omega arith),
          ),
      subst (λ o. IsBucketOf r now hash (o, after)) (sym entry)
          (subst (λ x. IsBucketOf r now hash (d.host, x)) (sym at)
            (admitted-IsBucketOf r now hash d.host d.before d.i d.m d.is_bucket)),
    )

-- The cap on the registered slots of a source's bucket, where there is one.
abbrev pub BucketWithin : DaemonLimitRegistry → Option ℕ → Type 0
BucketWithin r none = Unit
BucketWithin r (some h) = (r.per_host_cap ≡ 0) ⊎ (count (on_host h) r.slots ≤ r.per_host_cap)

capped : (cap n : ℕ) → (0 < cap → n ≤ cap) → (cap ≡ 0) ⊎ (n ≤ cap)
capped zero n h = inl refl
capped (suc cap) n h = inr (h (omega arith))

source_within :
    (r : DaemonLimitRegistry) (host : Option ℕ)
    → ((h : ℕ) → host ≡ some h → 0 < r.per_host_cap → count (on_host h) r.slots ≤ r.per_host_cap)
    → BucketWithin r host
source_within r none k = tt
source_within r (some h) k = capped r.per_host_cap (count (on_host h) r.slots) (k h refl)

-- The bucket is the source's, and it is within the cap.
abbrev pub SourceWithin :
    DaemonLimitRegistry → ℕ → Option ℕ → Option ℕ → DaemonLimitRegistry → Type 0
SourceWithin before now hash host after =
    IsBucketOf before now hash (host, after) × BucketWithin after host

-- However the processes called the registry since it was created, a call of `daemon_limits_register`
-- that admits a connection leaves at most as many registered slots of its module as the module's cap
-- allows, when that is above 0. It notes for the connection a bucket that holds the hash of its address,
-- and leaves at most as many registered slots of that bucket as the per-source cap allows, when that is
-- above 0. It notes no bucket only when the address has no hash, when the per-source cap is 0, or when
-- every bucket that a probe for the hash meets held another source before the call and was one that may
-- not be taken over at the time of the call.
pub admitted_within_caps :
    (net : Net) (mmap : ℕ → Bool) (max_slots modules per_host threshold duration : ℕ)
    (r : DaemonLimitRegistry) (calls : List Call) (slot m : ℕ) (peer_ip : List ℕ)
    (module_cap now : ℕ) (after : DaemonLimitRegistry)
    → create mmap max_slots modules per_host threshold duration ≡ some r
    → register net (run net r calls) (some slot) (some m) peer_ip module_cap now ≡ (ok, after)
    → ((module_cap ≡ 0) ⊎ (count (on_module m) after.slots ≤ module_cap))
      × SourceWithin
          (run net r calls)
          now
          (host_hash net peer_ip)
          (get_or after.slots slot free_slot).host
          after
admitted_within_caps net mmap max_slots modules per_host threshold duration r calls slot m peer_ip
      module_cap now after made done =
    let at_start = create-Covers mmap max_slots modules per_host threshold duration r made in
    let before = run net r calls in
    let covers = run-Covers net calls r at_start in
    let covered : Covers after =
      subst (λ (o : DaemonLimitResult × DaemonLimitRegistry). Covers o.1) done
        (register-Covers net before (some slot) (some m) peer_ip module_cap now covers) in
    elim (register-Decided net before (some slot) (some m) peer_ip module_cap now) [
      | inl (e, out) ↦
          let clash : unavailable ≡ ok =
            ap (λ (o : DaemonLimitResult × DaemonLimitRegistry). o.0) (sym out ∙ done) in
          cc
      | inr d ↦
          let (modules, sources, bucket) =
            within_caps_Decided now (host_hash net peer_ip) before slot m module_cap after
              (subst (Decided now (host_hash net peer_ip) before (some slot) (some m) module_cap)
                done d)
              covered in
          (
            capped module_cap (count (on_module m) after.slots) modules,
            (bucket, source_within after (get_or after.slots slot free_slot).host sources),
          )
    ]
