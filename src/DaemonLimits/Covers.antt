-- ===== src/DaemonLimits/Covers.antt =====
-- The counters never fall behind the registered slots.
use mathlib.Core.Path.{subst}
use fast_sync.Prelude.{
  ℕ, zero, suc, ◌≤◌, ◌<◌, ◌≡◌, refl, sym, ap, List, [], ◌∷◌, true, false, ◌&&◌, Option, none, some,
  arith, ltb, ◌==◌, ◌⊎◌, inl, inr, Bool-cases, length, get_or, modify, ltb→lt, ltb→le,
}
use fast_sync.HostTable.{Bucket, active_at}
use fast_sync.DaemonLimits.{
  DaemonLimitRegistry, Slot, free_slot, is_registered, is_claimed, registered, claimed, free,
  SlotState, bump_module, bump_host, publish,
}
use fast_sync.DaemonLimits.Counts.{
  is_at, on_module, on_host, bit, count, count-modify, count-modify_le, count-modify_eq,
  bump_module_lem, bump_host_lem,
}

pub record Covers (r : DaemonLimitRegistry) : Type 0 where
  pub modules : (m : ℕ) → count (on_module m) r.slots ≤ get_or r.module_active m 0
  pub sources : (h : ℕ) → count (on_host h) r.slots ≤ active_at r.hosts h

-- Beyond the counters nothing is counted.
pub get_or-beyond : (active : List ℕ) (m : ℕ) → length active ≤ m → get_or active m 0 ≡ 0
get_or-beyond [] m h = refl
get_or-beyond (n ∷ active) zero h = absurd (omega arith)
get_or-beyond (n ∷ active) (suc m) h = get_or-beyond active m (omega arith)

pub active_at-beyond : (hosts : List Bucket) (h : ℕ) → length hosts ≤ h → active_at hosts h ≡ 0
active_at-beyond [] h k = refl
active_at-beyond (b ∷ hosts) zero k = absurd (omega arith)
active_at-beyond (b ∷ hosts) (suc h) k = active_at-beyond hosts h (omega arith)

-- A write to a slot that is not registered afterwards.
pub dropped-Covers :
    (r : DaemonLimitRegistry) (i : ℕ) (f : Slot → Slot)
    → ((s : Slot) → is_registered (f s).state ≡ false)
    → Covers r
    → Covers (record r { slots = modify r.slots i f })
dropped-Covers r i f off c = record {
  modules = λ m. omega (
    arith,
    c.modules m,
    count-modify_le (on_module m) r.slots i f
        (λ s. ap (λ b. b && is_at (f s).module_index m) (off s)),
  );
  sources = λ h. omega (
    arith,
    c.sources h,
    count-modify_le (on_host h) r.slots i f (λ s. ap (λ b. b && is_at (f s).host h) (off s)),
  );
}

-- A write of the pid.
pub pid-Covers :
    (r : DaemonLimitRegistry) (i pid : ℕ)
    → Covers r
    → Covers (record r { slots = modify r.slots i (λ s. record s { pid = pid }) })
pid-Covers r i pid c = record {
  modules = λ m.
      subst (λ n. n ≤ get_or r.module_active m 0)
        (sym (count-modify_eq (on_module m) r.slots i (λ s. record s { pid = pid }) (λ s. refl)))
        (c.modules m);
  sources = λ h.
      subst (λ n. n ≤ active_at r.hosts h)
        (sym (count-modify_eq (on_host h) r.slots i (λ s. record s { pid = pid }) (λ s. refl)))
        (c.sources h);
}

-- A table with the same occupancy.
pub table-Covers :
    (r : DaemonLimitRegistry) (hosts : List Bucket)
    → ((h : ℕ) → active_at hosts h ≡ active_at r.hosts h)
    → Covers r
    → Covers (record r { hosts = hosts })
table-Covers r hosts same c = record {
  modules = c.modules;
  sources = λ h. omega (arith, c.sources h, same h);
}

claimed-registered : (s : SlotState) → is_claimed s ≡ true → is_registered s ≡ false
claimed-registered free h = cc
claimed-registered claimed h = refl
claimed-registered registered h = cc

elsewhere :
    (host : Option ℕ) (h : ℕ) {n : ℕ}
    → ((x : ℕ) → host ≡ some x → x < n)
    → n ≤ h
    → is_at host h ≡ false
elsewhere none h bound over = refl
elsewhere (some x) h bound over = let under = bound x refl in ground arith

-- A claimed slot is published after its counters went up.
pub publish-Covers :
    (r : DaemonLimitRegistry) (i m : ℕ) (host : Option ℕ)
    → i < length r.slots
    → is_claimed (get_or r.slots i free_slot).state ≡ true
    → m < length r.module_active
    → ((h : ℕ) → host ≡ some h → h < length r.hosts)
    → Covers r
    → Covers (record r {
      slots = modify r.slots i (publish m host);
      module_active = bump_module (some m) r.module_active;
      hosts = bump_host host r.hosts;
    })
publish-Covers r i m host inside is_ours known bound c = record {
  modules = λ x. modules_at x (Bool-cases (ltb x (length r.module_active)));
  sources = λ h. sources_at h (Bool-cases (ltb h (length r.hosts)));
}
  where
    unregistered : is_registered (get_or r.slots i free_slot).state ≡ false
    unregistered = claimed-registered (get_or r.slots i free_slot).state is_ours

    modules_at :
        (x : ℕ)
        → (ltb x (length r.module_active) ≡ true) ⊎ (ltb x (length r.module_active) ≡ false)
        → count (on_module x) (modify r.slots i (publish m host))
          ≤ get_or (bump_module (some m) r.module_active) x 0
    modules_at x split =
        let more = count-modify (on_module x) r.slots i (publish m host) inside in
        elim split [
          | inl e ↦
              omega (
                arith,
                c.modules x,
                more,
                bump_module_lem (some m) r.module_active x (ltb→lt _ _ e),
              )
          | inr e ↦
              let other : (m == x) ≡ false = ground arith in
              let none_here = get_or-beyond r.module_active x (ltb→le _ _ e) in
              omega (arith, c.modules x, more, none_here, ap bit other)
        ]

    sources_at :
        (h : ℕ)
        → (ltb h (length r.hosts) ≡ true) ⊎ (ltb h (length r.hosts) ≡ false)
        → count (on_host h) (modify r.slots i (publish m host))
          ≤ active_at (bump_host host r.hosts) h
    sources_at h split =
        let more = count-modify (on_host h) r.slots i (publish m host) inside in
        elim split [
          | inl e ↦ omega (arith, c.sources h, more, bump_host_lem host r.hosts h (ltb→lt _ _ e))
          | inr e ↦
              let none_here = active_at-beyond r.hosts h (ltb→le _ _ e) in
              omega (
                arith,
                c.sources h,
                more,
                none_here,
                ap bit (elsewhere host h bound (ltb→le _ _ e)),
              )
        ]
