-- ===== src/DaemonLimits/Recount.antt =====
-- The counters that `daemon_limits_recompute` derives from the slots.
use fast_sync.Prelude.{
  ℕ, suc, ◌+◌, ◌<◌, ◌≡◌, refl, ◌∙◌, List, [], ◌∷◌, ◌&&◌, Option, none, some, arith, ltb, inl, inr,
  Bool-cases, length, get_or, length-modify, ltb→lt, ltb→le,
}
use fast_sync.HostTable.{Bucket, active_at}
use fast_sync.DaemonLimits.{
  DaemonLimitRegistry, Slot, is_registered, registered, claimed, free, SlotState, zeroed, idle,
  bump_module, bump_host, enter, count_slot, tally, recompute,
}
use fast_sync.DaemonLimits.Counts.{
  is_at, on_module, on_host, bit, count, zeroed-get_or, length-zeroed, active_at-idle, length-idle,
  bump_module_lem, bump_host_lem,
}
use fast_sync.DaemonLimits.Covers.{Covers, get_or-beyond, active_at-beyond}

length-bump_module :
    (at : Option ℕ) (active : List ℕ) → length (bump_module at active) ≡ length active
length-bump_module none active = refl
length-bump_module (some m) active = length-modify active m suc

length-bump_host :
    (at : Option ℕ) (hosts : List Bucket) → length (bump_host at hosts) ≡ length hosts
length-bump_host none hosts = refl
length-bump_host (some h) hosts = length-modify hosts h enter

count_slot-slots :
    (state : SlotState) (s : Slot) (r : DaemonLimitRegistry)
    → (count_slot state s r).slots ≡ r.slots
count_slot-slots free s r = refl
count_slot-slots claimed s r = refl
count_slot-slots registered s r = refl

count_slot-module_active :
    (state : SlotState) (s : Slot) (r : DaemonLimitRegistry) (m : ℕ)
    → m < length r.module_active
    → (m < length (count_slot state s r).module_active)
      × (get_or (count_slot state s r).module_active m 0
          ≡ get_or r.module_active m 0 + bit (is_registered state && is_at s.module_index m))
count_slot-module_active free s r m h = (h, omega arith)
count_slot-module_active claimed s r m h = (h, omega arith)
count_slot-module_active registered s r m h = (
  omega (arith, length-bump_module s.module_index r.module_active),
  bump_module_lem s.module_index r.module_active m h,
)

count_slot-hosts :
    (state : SlotState) (s : Slot) (r : DaemonLimitRegistry) (h : ℕ)
    → h < length r.hosts
    → (h < length (count_slot state s r).hosts)
      × (active_at (count_slot state s r).hosts h
          ≡ active_at r.hosts h + bit (is_registered state && is_at s.host h))
count_slot-hosts free s r h k = (k, omega arith)
count_slot-hosts claimed s r h k = (k, omega arith)
count_slot-hosts registered s r h k =
    (omega (arith, length-bump_host s.host r.hosts), bump_host_lem s.host r.hosts h k)

tally-slots : (slots : List Slot) (r : DaemonLimitRegistry) → (tally r slots).slots ≡ r.slots
unfolding tally
tally-slots [] r = refl
tally-slots (s ∷ slots) r =
    tally-slots slots (count_slot s.state s r) ∙ count_slot-slots s.state s r

tally-module_active :
    (slots : List Slot) (r : DaemonLimitRegistry) (m : ℕ)
    → m < length r.module_active
    → get_or (tally r slots).module_active m 0
      ≡ get_or r.module_active m 0 + count (on_module m) slots
unfolding tally
tally-module_active [] r m h = omega arith
tally-module_active (s ∷ slots) r m h =
    let (inside, step) = count_slot-module_active s.state s r m h in
    omega (arith, tally-module_active slots (count_slot s.state s r) m inside, step)

tally-hosts :
    (slots : List Slot) (r : DaemonLimitRegistry) (h : ℕ)
    → h < length r.hosts
    → active_at (tally r slots).hosts h ≡ active_at r.hosts h + count (on_host h) slots
unfolding tally
tally-hosts [] r h k = omega arith
tally-hosts (s ∷ slots) r h k =
    let (inside, step) = count_slot-hosts s.state s r h k in
    omega (arith, tally-hosts slots (count_slot s.state s r) h inside, step)

-- The counters are taken down to 0 before the slots are counted.
abbrev cleared : DaemonLimitRegistry → DaemonLimitRegistry
cleared r = record r { module_active = zeroed r.module_active; hosts = idle r.hosts }

recompute-module_active :
    (r : DaemonLimitRegistry) (m : ℕ)
    → m < length r.module_active
    → get_or (recompute r).module_active m 0 ≡ count (on_module m) r.slots
unfolding recompute
recompute-module_active r m h = omega (
  arith,
  zeroed-get_or r.module_active m,
  tally-module_active r.slots (cleared r) m (omega (arith, length-zeroed r.module_active)),
)

recompute-hosts :
    (r : DaemonLimitRegistry) (h : ℕ)
    → h < length r.hosts
    → active_at (recompute r).hosts h ≡ count (on_host h) r.slots
unfolding recompute
recompute-hosts r h k = omega (
  arith,
  active_at-idle r.hosts h,
  tally-hosts r.slots (cleared r) h (omega (arith, length-idle r.hosts)),
)

recompute-slots : (r : DaemonLimitRegistry) → (recompute r).slots ≡ r.slots
unfolding recompute
recompute-slots r = tally-slots r.slots (cleared r)

-- After `daemon_limits_recompute` the counter of each module and of each source's bucket is the number
-- of the registered slots that name it, whatever the counters were before, and the slots are as they
-- were.
pub recompute-count :
    (r : DaemonLimitRegistry) (m h : ℕ)
    → m < length r.module_active
    → h < length r.hosts
    → (get_or (recompute r).module_active m 0 ≡ count (on_module m) r.slots)
      × (active_at (recompute r).hosts h ≡ count (on_host h) r.slots)
      × ((recompute r).slots ≡ r.slots)
recompute-count r m h known inside =
    (recompute-module_active r m known, recompute-hosts r h inside, recompute-slots r)

pub recompute-Covers : (r : DaemonLimitRegistry) → Covers r → Covers (recompute r)
recompute-Covers r c =
    let same = recompute-slots r in
    record {
      modules = λ m. elim (Bool-cases (ltb m (length r.module_active))) [
        | inl e ↦ rw same (omega (arith, recompute-module_active r m (ltb→lt _ _ e)))
        | inr e ↦
            rw same (omega (arith, c.modules m, get_or-beyond r.module_active m (ltb→le _ _ e)))
      ];
      sources = λ h. elim (Bool-cases (ltb h (length r.hosts))) [
        | inl e ↦ rw same (omega (arith, recompute-hosts r h (ltb→lt _ _ e)))
        | inr e ↦ rw same (omega (arith, c.sources h, active_at-beyond r.hosts h (ltb→le _ _ e)))
      ];
    }
