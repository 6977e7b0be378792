-- ===== src/DaemonLimits/Refusals.antt =====
-- What `daemon_limits_register` does on each of its results.
use mathlib.Core.Path.{subst}
use fast_sync.Prelude.{
  ℕ, ◌≤◌, ◌<◌, ◌≡◌, ◌≢◌, refl, sym, ap, ◌∙◌, List, Bool, true, false, Option, none, some, arith,
  ltb, ◌⊎◌, inl, inr, Option-cases, if◌then◌else◌, length, get_or, ltb→lt, lt→ltb, >>=-eq-some,
  guard-eq-some,
}
use fast_sync.HostTable.{key_at, Bucket, active_at, Net, host_hash, intern_key}
use fast_sync.HostTable.Probing.{probe_index-lt}
use fast_sync.HostTable.Canonical.{Interned, intern_key-Interned}
use fast_sync.HostTable.Occupancy.{host_hash-nonzero, intern_key-active}
use fast_sync.DaemonLimits.{
  DaemonLimitRegistry, DaemonLimitResult, ok, module_full, host_full, unavailable, free_slot,
  is_claimed, interned, intern_hashed, host_intern, tracks_hosts, admissible, register_at, register,
}
use fast_sync.DaemonLimits.Sources.{source, IsBucketOf, source-IsBucketOf, bucket-key}
use fast_sync.DaemonLimits.Entering.{
  Same, Same-refl, warn-Same, InTable, Entered, enter_module-Entered,
}

interned-Same :
    (r : DaemonLimitRegistry) (now key : ℕ) (o : Option ℕ × List Bucket)
    → Interned r.hosts key o
    → ((h : ℕ) → active_at o.1 h ≡ active_at r.hosts h)
    → Same r (interned r now o).1 × InTable (interned r now o)
interned-Same r now key (none, hosts) known same =
    let w = warn-Same (record r { hosts = hosts }) now in
    (
      record {
        slots = w.slots;
        module_active = w.module_active;
        sources = λ h. w.sources h ∙ same h;
        cap = w.cap;
        threshold = w.threshold;
        duration = w.duration;
      },
      λ h. cc,
    )
interned-Same r now key (some bucket, hosts) (c, size) same = (
  record {
    slots = refl;
    module_active = refl;
    sources = same;
    cap = refl;
    threshold = refl;
    duration = refl;
  },
  λ h e.
      let eq : bucket ≡ h = cc e in
      subst (λ x. x < length hosts) (c.at ∙ eq)
        (probe_index-lt hosts key c.rounds (omega (arith, c.within))),
)

-- Interning a source changes neither the slots nor a counter, and gives a bucket of the table.
pub host_intern-Same :
    (net : Net) (r : DaemonLimitRegistry) (peer_ip : List ℕ) (now : ℕ)
    → Same r (host_intern net r peer_ip now).1 × InTable (host_intern net r peer_ip now)
unfolding host_intern
host_intern-Same net r peer_ip now = go (host_hash net peer_ip) refl
  where
    go :
        (k : Option ℕ)
        → host_hash net peer_ip ≡ k
        → Same r (intern_hashed r k now).1 × InTable (intern_hashed r k now)
    go none e = (Same-refl r, λ h. cc)
    go (some key) e =
        interned-Same r now key (intern_key r.hosts key now)
          (intern_key-Interned r.hosts key now (host_hash-nonzero net peer_ip key e))
          (λ h. intern_key-active r.hosts key now h)

-- The source's bucket, where sources are tracked.
tracked-Same :
    (net : Net) (r : DaemonLimitRegistry) (peer_ip : List ℕ) (now : ℕ) (b : Bool)
    → Same r (if b then host_intern net r peer_ip now else (none, r)).1
      × InTable (if b then host_intern net r peer_ip now else (none, r))
tracked-Same net r peer_ip now true = host_intern-Same net r peer_ip now
tracked-Same net r peer_ip now false = (Same-refl r, λ h. cc)

-- The slot and the module that a call names, usable.
pub record Usable (r : DaemonLimitRegistry) (slot module_index : Option ℕ) (i m : ℕ) : Type 0 where
  pub slot_is : slot ≡ some i
  pub in_slots : i < length r.slots
  pub module_is : module_index ≡ some m
  pub in_modules : m < length r.module_active
  pub is_ours : is_claimed (get_or r.slots i free_slot).state ≡ true

admissible-Usable :
    (r : DaemonLimitRegistry) (slot module_index : Option ℕ) (im : ℕ × ℕ)
    → admissible r slot module_index ≡ some im
    → Usable r slot module_index im.0 im.1
unfolding admissible
admissible-Usable r slot module_index im h =
    let (i, slot_is, h1) = >>=-eq-some slot _ h in
    let (in_slots, h2) = guard-eq-some (ltb i (length r.slots)) _ h1 in
    let (m, module_is, h3) = >>=-eq-some module_index _ h2 in
    let (in_modules, h4) = guard-eq-some (ltb m (length r.module_active)) _ h3 in
    let (is_ours, h5) = guard-eq-some (is_claimed (get_or r.slots i free_slot).state) _ h4 in
    let eq : (i, m) ≡ im = cc h5 in
    subst (λ (p : ℕ × ℕ). Usable r slot module_index p.0 p.1) eq
      (record {
        slot_is = slot_is;
        in_slots = ltb→lt _ _ in_slots;
        module_is = module_is;
        in_modules = ltb→lt _ _ in_modules;
        is_ours = is_ours;
      })

-- What a call of `daemon_limits_register` did. `before` is the registry with the source interned, and
-- `hash` the hash of its address.
pub record Decided (now : ℕ) (hash : Option ℕ) (r : DaemonLimitRegistry)
    (slot module_index : Option ℕ) (module_cap : ℕ) (out : DaemonLimitResult × DaemonLimitRegistry)
    : Type 0 where
  pub i : ℕ
  pub m : ℕ
  pub host : Option ℕ
  pub before : DaemonLimitRegistry
  pub usable : Usable r slot module_index i m
  pub same : Same r before
  pub in_table : InTable (host, before)
  pub is_bucket : IsBucketOf r now hash (host, before)
  pub entered : Entered before i m host module_cap out

register_at-Decided :
    (net : Net) (r : DaemonLimitRegistry) (slot module_index : Option ℕ) (im : ℕ × ℕ)
    (peer_ip : List ℕ) (module_cap now : ℕ)
    → admissible r slot module_index ≡ some im
    → Decided now
        (host_hash net peer_ip)
        r
        slot
        module_index
        module_cap
        (register_at net r (some im) peer_ip module_cap now)
unfolding register_at
register_at-Decided net r slot module_index im peer_ip module_cap now e =
    let found = source net r peer_ip now in
    let (same, in_table) = tracked-Same net r peer_ip now (tracks_hosts r) in
    record {
      i = im.0;
      m = im.1;
      host = found.0;
      before = found.1;
      usable = admissible-Usable r slot module_index im e;
      same = same;
      in_table = in_table;
      is_bucket = source-IsBucketOf net r peer_ip now;
      entered = enter_module-Entered found.1 im.0 im.1 module_cap found.0;
    }

pub register-Decided :
    (net : Net) (r : DaemonLimitRegistry) (slot module_index : Option ℕ) (peer_ip : List ℕ)
    (module_cap now : ℕ)
    → ((admissible r slot module_index ≡ none)
        × (register net r slot module_index peer_ip module_cap now ≡ (unavailable, r)))
      ⊎ Decided now
          (host_hash net peer_ip)
          r
          slot
          module_index
          module_cap
          (register net r slot module_index peer_ip module_cap now)
unfolding register register_at
register-Decided net r slot module_index peer_ip module_cap now =
    elim (Option-cases (admissible r slot module_index)) [
      | inl e ↦ inl (e, ap (λ o. register_at net r o peer_ip module_cap now) e)
      | inr (im, e) ↦ inr (
          subst
            (λ o.
              Decided now (host_hash net peer_ip) r slot module_index module_cap
                (register_at net r o peer_ip module_cap now))
            (sym e) (register_at-Decided net r slot module_index im peer_ip module_cap now e))
    ]

Usable-admissible :
    (r : DaemonLimitRegistry) (slot module_index : Option ℕ) (i m : ℕ)
    → Usable r slot module_index i m
    → admissible r slot module_index ≡ some (i, m)
unfolding admissible
Usable-admissible r slot module_index i m u =
    let room = lt→ltb _ _ u.in_slots in
    let known = lt→ltb _ _ u.in_modules in
    let yours = u.is_ours in rw (u.slot_is, u.module_is, room, known, yours) refl

-- Why a call was refused.
abbrev pub Reason :
    Option ℕ
    → DaemonLimitRegistry
    → Option ℕ
    → Option ℕ
    → ℕ
    → DaemonLimitResult
    → DaemonLimitRegistry
    → Type 0
Reason hash r slot module_index module_cap ok after = ⊥
Reason hash r slot module_index module_cap module_full after =
    (m : ℕ) × (module_index ≡ some m) × (0 < module_cap) × (module_cap ≤ get_or r.module_active m 0)
Reason hash r slot module_index module_cap host_full after =
    (key : ℕ) × (h : ℕ) × (hash ≡ some key)
    × (key_at after.hosts h ≡ key)
    × (0 < r.per_host_cap)
    × (r.per_host_cap ≤ active_at r.hosts h)
Reason hash r slot module_index module_cap unavailable after =
    (i m : ℕ) → ¬ Usable r slot module_index i m

refused_as :
    (now : ℕ) (hash : Option ℕ) (r : DaemonLimitRegistry) (slot module_index : Option ℕ)
    (module_cap : ℕ) (out : DaemonLimitResult × DaemonLimitRegistry)
    → Decided now hash r slot module_index module_cap out
    → out.0 ≢ ok
    → Same r out.1 × Reason hash r slot module_index module_cap out.0 out.1
refused_as now hash r slot module_index module_cap (ok, after) d refused = absurd (refused refl)
refused_as now hash r slot module_index module_cap (module_full, after) d refused =
    let (back, capped, reached) = d.entered in
    (
      subst (Same r) (sym back) d.same,
      (
        d.m,
        d.usable.module_is,
        capped,
        subst (λ a. module_cap ≤ get_or a d.m 0) d.same.module_active reached,
      ),
    )
refused_as now hash r slot module_index module_cap (host_full, after) d refused =
    let (back, (h, at, capped, reached)) = d.entered in
    let (key, hashed, holds) = bucket-key r now hash d.host h d.before d.is_bucket at in
    (
      subst (Same r) (sym back) d.same,
      (
        key,
        h,
        hashed,
        ap (λ (x : DaemonLimitRegistry). key_at x.hosts h) back ∙ holds,
        omega (arith, d.same.cap),
        omega (arith, d.same.cap, d.same.sources h),
      ),
    )
refused_as now hash r slot module_index module_cap (unavailable, after) d refused = absurd d.entered

-- A call of `daemon_limits_register` that is refused changes no slot, no module's count of active
-- connections, no bucket's count of active connections and none of the settings. It reports a full
-- module only when the module's cap is above 0 and its count has reached it; a full source only when the
-- address has a hash, the per-source cap is above 0 and the count of a bucket that holds that hash has
-- reached it; and an unusable slot only when the slot is not a claimed one of the table or the module is
-- none of the registry's.
pub register-refused :
    (net : Net) (r : DaemonLimitRegistry) (slot module_index : Option ℕ) (peer_ip : List ℕ)
    (module_cap now : ℕ)
    → (register net r slot module_index peer_ip module_cap now).0 ≢ ok
    → Same r (register net r slot module_index peer_ip module_cap now).1
      × Reason
          (host_hash net peer_ip)
          r
          slot
          module_index
          module_cap
          (register net r slot module_index peer_ip module_cap now).0
          (register net r slot module_index peer_ip module_cap now).1
register-refused net r slot module_index peer_ip module_cap now refused =
    elim (register-Decided net r slot module_index peer_ip module_cap now) [
      | inl (e, out) ↦
          subst
            (λ (o : DaemonLimitResult × DaemonLimitRegistry).
              Same r o.1 × Reason (host_hash net peer_ip) r slot module_index module_cap o.0 o.1)
            (sym out)
            (Same-refl r, λ i m u. cc (sym e ∙ Usable-admissible r slot module_index i m u))
      | inr d ↦ refused_as now (host_hash net peer_ip) r slot module_index module_cap _ d refused
    ]
