-- ===== src/DaemonLimits/Entering.antt =====
-- The two caps: a connection goes in below both, or is turned away at one with nothing changed.
use mathlib.Core.Path.{subst}
use fast_sync.Prelude.{
  ℕ, zero, suc, ◌+◌, ◌-◌, ◌≤◌, ◌<◌, ◌≡◌, refl, ap, ap₂, List, [], ◌∷◌, Bool, true, false, ◌&&◌, not,
  ◌==◌, Option, none, some, arith, ltb, if◌then◌else◌, length, get_or, modify,
}
use fast_sync.HostTable.{Bucket, active_at}
use fast_sync.DaemonLimits.{
  DaemonLimitRegistry, DaemonLimitResult, ok, module_full, host_full, unavailable, bump_module,
  bump_host, enter, publish, warn_table_full, leave_module, leave_host, published, enter_host,
  enter_module,
}

-- The registries agree but for the identity and the lockouts of the sources.
pub record Same (r r' : DaemonLimitRegistry) : Type 0 where
  pub slots : r'.slots ≡ r.slots
  pub module_active : r'.module_active ≡ r.module_active
  pub sources : (h : ℕ) → active_at r'.hosts h ≡ active_at r.hosts h
  pub cap : r'.per_host_cap ≡ r.per_host_cap
  pub threshold : r'.lockout_threshold ≡ r.lockout_threshold
  pub duration : r'.lockout_duration_sec ≡ r.lockout_duration_sec

pub Same-refl : (r : DaemonLimitRegistry) → Same r r
Same-refl r = record {
  slots = refl;
  module_active = refl;
  sources = λ h. refl;
  cap = refl;
  threshold = refl;
  duration = refl;
}

pub warn-Same : (r : DaemonLimitRegistry) (now : ℕ) → Same r (warn_table_full r now)
unfolding warn_table_full
warn-Same r now = go (not (r.host_full_warn == 0) && ltb (now - r.host_full_warn) 60)
  where
    go : (b : Bool) → Same r (if b then r else record r { host_full_warn = now })
    go true = Same-refl r
    go false = record {
      slots = refl;
      module_active = refl;
      sources = λ h. refl;
      cap = refl;
      threshold = refl;
      duration = refl;
    }

-- The bucket that a source gets is one of the table.
abbrev pub InTable : Option ℕ × DaemonLimitRegistry → Type 0
InTable (host, r) = (h : ℕ) → host ≡ some h → h < length r.hosts

undone_module : (active : List ℕ) (m : ℕ) → modify (modify active m suc) m (λ n. n - 1) ≡ active
undone_module [] m = refl
undone_module (n ∷ active) zero = ap (λ k. k ∷ active) (omega arith)
undone_module (n ∷ active) (suc m) = ap (λ t. n ∷ t) (undone_module active m)

undone_host :
    (hosts : List Bucket) (h : ℕ)
    → modify (modify hosts h enter) h (λ b. record b { active = b.active - 1 }) ≡ hosts
undone_host [] h = refl
undone_host (b ∷ hosts) zero = ap (λ k. record b { active = k } ∷ hosts) (omega arith)
undone_host (b ∷ hosts) (suc h) = ap (λ t. b ∷ t) (undone_host hosts h)

-- The registry with the connection in it.
abbrev pub admitted : DaemonLimitRegistry → ℕ → ℕ → Option ℕ → DaemonLimitRegistry
admitted r i m host = record r {
  slots = modify r.slots i (publish m host);
  module_active = bump_module (some m) r.module_active;
  hosts = bump_host host r.hosts;
}

-- Admitted below the caps, or refused at a cap with the registry as it was.
abbrev pub Entered :
    DaemonLimitRegistry → ℕ → ℕ → Option ℕ → ℕ → DaemonLimitResult × DaemonLimitRegistry → Type 0
Entered r i m host module_cap (ok, after) =
    (after ≡ admitted r i m host)
    × (0 < module_cap → get_or r.module_active m 0 < module_cap)
    × ((h : ℕ) → host ≡ some h → 0 < r.per_host_cap → active_at r.hosts h < r.per_host_cap)
Entered r i m host module_cap (module_full, after) =
    (after ≡ r) × (0 < module_cap) × (module_cap ≤ get_or r.module_active m 0)
Entered r i m host module_cap (host_full, after) =
    (after ≡ r)
    × ((h : ℕ) × (host ≡ some h) × (0 < r.per_host_cap) × (r.per_host_cap ≤ active_at r.hosts h))
Entered r i m host module_cap (unavailable, after) = ⊥

-- A cap lets one more in, or it is reached.
cap_holds : (cap n : ℕ) → (ltb 0 cap && ltb cap (n + 1)) ≡ false → 0 < cap → n < cap
cap_holds cap n e h = ground arith

cap_reached : (cap n : ℕ) → (ltb 0 cap && ltb cap (n + 1)) ≡ true → (0 < cap) × (cap ≤ n)
cap_reached cap n e = (ground arith, ground arith)

-- The registry after the module's counter went up.
abbrev counted : DaemonLimitRegistry → ℕ → DaemonLimitRegistry
counted r m = record r { module_active = modify r.module_active m suc }

left : (r : DaemonLimitRegistry) (m : ℕ) → leave_module (counted r m) m ≡ r
left r m = ap (λ a. record r { module_active = a }) (undone_module r.module_active m)

left_host :
    (r : DaemonLimitRegistry) (m h : ℕ)
    → leave_module (leave_host (record (counted r m) { hosts = modify r.hosts h enter }) h) m ≡ r
left_host r m h =
    ap₂ (λ a b. record r { module_active = a; hosts = b }) (undone_module r.module_active m)
      (undone_host r.hosts h)

enter_host-Entered :
    (r : DaemonLimitRegistry) (i m module_cap : ℕ) (host : Option ℕ)
    → (0 < module_cap → get_or r.module_active m 0 < module_cap)
    → Entered r i m host module_cap (enter_host (counted r m) i m host)
unfolding enter_host
enter_host-Entered r i m module_cap none room = (refl, room, λ h e. cc)
enter_host-Entered r i m module_cap (some h) room = go _ refl
  where
    go :
        (b : Bool)
        → (ltb 0 r.per_host_cap && ltb r.per_host_cap (active_at r.hosts h + 1)) ≡ b
        → Entered r i m (some h) module_cap (
            if b
            then (
              host_full,
              leave_module
                  (leave_host (record (counted r m) { hosts = modify r.hosts h enter }) h)
                  m,
            )
            else published (record (counted r m) { hosts = modify r.hosts h enter }) i m (some h))
    go true e =
        let (capped, reached) = cap_reached r.per_host_cap (active_at r.hosts h) e in
        (left_host r m h, (h, refl, capped, reached))
    go false e = (
      refl,
      room,
      λ x same capped.
          let eq : h ≡ x = cc same in
          subst (λ y. active_at r.hosts y < r.per_host_cap) eq
            (cap_holds r.per_host_cap (active_at r.hosts h) e capped),
    )

pub enter_module-Entered :
    (r : DaemonLimitRegistry) (i m module_cap : ℕ) (host : Option ℕ)
    → Entered r i m host module_cap (enter_module i m module_cap (host, r))
unfolding enter_module
enter_module-Entered r i m module_cap host = go _ refl
  where
    go :
        (b : Bool)
        → (ltb 0 module_cap && ltb module_cap (get_or r.module_active m 0 + 1)) ≡ b
        → Entered r i m host module_cap (
            if b
            then (module_full, leave_module (counted r m) m)
            else enter_host (counted r m) i m host)
    go true e =
        let (capped, reached) = cap_reached module_cap (get_or r.module_active m 0) e in
        (left r m, capped, reached)
    go false e =
        enter_host-Entered r i m module_cap host
          (cap_holds module_cap (get_or r.module_active m 0) e)
