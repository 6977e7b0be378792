-- ===== src/DaemonLimits/Create/Fits.antt =====
-- The sizes that `daemon_limits_create` chooses, and the place of the arrays in the mapping.
use fast_sync.Prelude.{
  ℕ, zero, suc, ◌+◌, ◌-◌, ◌*◌, ◌/◌, ◌%◌, ◌^◌, ◌≤◌, ◌<◌, ◌≡◌, refl, sym, ap, ◌∙◌, inl, inr, Bool,
  ◌&&◌, ◌||◌, some, arith, bit_and, ltb, Bool-cases, length, length-replicate, guard-eq-some,
}
use mathlib.Core.Path.{subst}
use native.Mathlib.Nat.{pow-suc, pow-le-pow_right}
use fast_sync.Prelude.Masks.{bit_and-high}
use fast_sync.DaemonLimits.{DaemonLimitRegistry, free_slot}
use fast_sync.HostTable.{empty_bucket}
use fast_sync.DaemonLimits.Create.{
  round_up, pow2_loop, next_pow2, clamp, slot_count, module_count, host_slots, header, map_size,
  Layout, layout, fresh, create,
}

round_up_lem : (n : ℕ) → n + 15 < 2 ^ 64 → round_up n 16 ≡ (n + 15) / 16 * 16
unfolding round_up
round_up_lem n h = ap (λ k. bit_and k (2 ^ 64 - 16)) (omega arith) ∙ bit_and-high (n + 15) 60 4 h

-- A power of two from `2 ^ low` to `2 ^ high` that is not below `n`.
abbrev pub IsPow2 : ℕ → ℕ → ℕ → ℕ → Type 0
IsPow2 low high n p = (k : ℕ) × (p ≡ 2 ^ k) × (low ≤ k) × (k ≤ high) × (n ≤ 2 ^ k)

pow2_loop-IsPow2 :
    (fuel j high n : ℕ)
    → n ≤ 2 ^ high
    → j ≤ high
    → high ≤ j + fuel
    → IsPow2 j high n (pow2_loop fuel (2 ^ j) n)
unfolding pow2_loop
pow2_loop-IsPow2 zero j high n below low last =
    let same : high ≡ j = omega arith in
    (j, refl, omega arith, low, subst (λ k. n ≤ 2 ^ k) same below)
pow2_loop-IsPow2 (suc fuel) j high n below low last = elim (Bool-cases (ltb (2 ^ j) n)) [
  | inl e ↦
      let more : j < high = elim (Bool-cases (ltb j high)) [
        | inl t ↦ ground arith
        | inr t ↦
            let order : high ≤ j = ground arith in
            let le = pow-le-pow_right {n = 2} (omega arith) order in
            let lt : 2 ^ j < n = ground arith in absurd (omega arith)
      ] in
      let (k, at, over, under, enough) =
        pow2_loop-IsPow2 fuel (suc j) high n below more (omega arith) in
      (k, rw e (ap (λ p. pow2_loop fuel p n) (sym (pow-suc 2 j)) ∙ at), omega arith, under, enough)
  | inr e ↦ (j, rw e refl, omega arith, low, ground arith)
]

clamp-bounds : (low high n : ℕ) → low ≤ high → (low ≤ clamp low high n) × (clamp low high n ≤ high)
unfolding clamp
clamp-bounds low high n h = (ground arith, ground arith)

host_slots-IsPow2 :
    (max_slots per_host threshold duration : ℕ)
    → IsPow2 0 16 1 (host_slots max_slots per_host threshold duration)
unfolding host_slots next_pow2
host_slots-IsPow2 max_slots per_host threshold duration =
    elim (Bool-cases (ltb 0 per_host || (ltb 0 threshold && ltb 0 duration))) [
      | inl e ↦
          let want = clamp 64 65536 (slot_count max_slots * 4) in
          let (low, high) = clamp-bounds 64 65536 (slot_count max_slots * 4) (omega arith) in
          let (k, at, over, under, enough) =
            pow2_loop-IsPow2 64 0 16 want high (omega arith) (omega arith) in
          (k, rw e at, over, under, omega arith)
      | inr e ↦ (0, rw e refl, omega arith, omega arith, omega arith)
    ]

-- What a registry has room for.
abbrev pub Sized : DaemonLimitRegistry → Type 0
Sized r =
    (16 ≤ length r.slots)
    × (length r.slots ≤ 65536)
    × (1 ≤ length r.module_active)
    × (length r.module_active ≤ 256)
    × IsPow2 0 16 1 (length r.hosts)

pub create-eq_fresh :
    (mmap : ℕ → Bool) (max_slots modules per_host threshold duration : ℕ) (r : DaemonLimitRegistry)
    → create mmap max_slots modules per_host threshold duration ≡ some r
    → fresh max_slots modules per_host threshold duration ≡ r
unfolding create
create-eq_fresh mmap max_slots modules per_host threshold duration r h =
    let slots = slot_count max_slots in
    let hosts = host_slots max_slots per_host threshold duration in
    let (granted, made) = guard-eq-some (mmap (map_size slots (module_count modules) hosts)) _ h in
    cc made

pub create-Sized :
    (mmap : ℕ → Bool) (max_slots modules per_host threshold duration : ℕ) (r : DaemonLimitRegistry)
    → create mmap max_slots modules per_host threshold duration ≡ some r
    → Sized r
unfolding slot_count module_count
create-Sized mmap max_slots modules per_host threshold duration r h =
    let slots = slot_count max_slots in
    let hosts = host_slots max_slots per_host threshold duration in
    let eq = create-eq_fresh mmap max_slots modules per_host threshold duration r h in
    let sizes = clamp-bounds 16 65536 max_slots (omega arith) in
    let counts = clamp-bounds 1 256 modules (omega arith) in
    let slots_are = length-replicate slots free_slot in
    let modules_are = length-replicate {A = ℕ} (module_count modules) 0 in
    let hosts_are = length-replicate hosts empty_bucket in
    subst Sized eq (
      omega arith,
      omega arith,
      omega arith,
      omega arith,
      subst (IsPow2 0 16 1) (sym hosts_are)
          (host_slots-IsPow2 max_slots per_host threshold duration),
    )

-- The arrays follow each other from the header to the end of the mapping, and those of 8-byte
-- words begin at a multiple of 8.
abbrev pub InOrder : Layout → ℕ → ℕ → ℕ → ℕ → Type 0
InOrder l slots modules hosts total =
    (120 ≤ l.slot_state)
    × (l.slot_state + slots * 4 ≤ l.slot_pid)
    × (l.slot_pid + slots * 4 ≤ l.slot_module)
    × (l.slot_module + slots * 4 ≤ l.slot_host)
    × (l.slot_host + slots * 4 ≤ l.module_active)
    × (l.module_active + modules * 4 ≤ l.host_key)
    × (l.host_key + hosts * 8 ≤ l.host_active)
    × (l.host_active + hosts * 4 ≤ l.host_fail)
    × (l.host_fail + hosts * 4 ≤ l.host_until)
    × (l.host_until + hosts * 8 ≤ l.host_last_use)
    × (l.host_last_use + hosts * 8 ≤ total)
    × (l.host_key % 8 ≡ 0)
    × (l.host_until % 8 ≡ 0)
    × (l.host_last_use % 8 ≡ 0)

layout-InOrder :
    (map slots modules hosts : ℕ)
    → slots ≤ 65536
    → modules ≤ 256
    → hosts ≤ 65536
    → map % 16 ≡ 0
    → map + map_size slots modules hosts + 16 ≤ 2 ^ 64
    → InOrder (layout map slots modules hosts) slots modules hosts (map_size slots modules hosts)
unfolding layout map_size
layout-InOrder map slots modules hosts s m h aligned room =
    let top = round_up_lem 120 (omega arith) in
    let slot_bytes = round_up_lem (slots * 4) (omega arith) in
    let module_bytes = round_up_lem (modules * 4) (omega arith) in
    let key_bytes = round_up_lem (hosts * 8) (omega arith) in
    let int_bytes = round_up_lem (hosts * 4) (omega arith) in
    let key_at = map + (header + slots * 4 + slots * 4 + slots * 4 + slots * 4 + modules * 4) in
    let keys = round_up_lem key_at (omega arith) in
    let until_at = map + (round_up key_at 16 - map + hosts * 8 + hosts * 4 + hosts * 4) in
    let untils = round_up_lem until_at (omega arith) in
    (
      omega arith,
      omega arith,
      omega arith,
      omega arith,
      omega arith,
      omega arith,
      omega arith,
      omega arith,
      omega arith,
      omega arith,
      omega arith,
      omega arith,
      omega arith,
      omega arith,
    )

-- A registry that is created has between 16 and 65536 slots, between 1 and 256 modules, and a
-- per-source table whose size is a power of two up to 65536. When the mapping begins at a multiple of
-- 16 and does not reach the last 16 bytes of the address space, its ten arrays follow the header one
-- after the other without overlap, end inside the mapping, and the three of 8-byte words are aligned.
pub create-InOrder :
    (mmap : ℕ → Bool) (max_slots modules per_host threshold duration map : ℕ)
    (r : DaemonLimitRegistry)
    → create mmap max_slots modules per_host threshold duration ≡ some r
    → map % 16 ≡ 0
    → map + map_size (length r.slots) (length r.module_active) (length r.hosts) + 16 ≤ 2 ^ 64
    → Sized r
      × InOrder
          (layout map (length r.slots) (length r.module_active) (length r.hosts))
          (length r.slots)
          (length r.module_active)
          (length r.hosts)
          (map_size (length r.slots) (length r.module_active) (length r.hosts))
create-InOrder mmap max_slots modules per_host threshold duration map r h aligned room =
    let sized = create-Sized mmap max_slots modules per_host threshold duration r h in
    let (least, slots, some_module, counts, pow2) = sized in
    let (k, at, low, high, one) = pow2 in
    let most : length r.hosts ≤ 2 ^ 16 =
      subst (λ n. n ≤ 2 ^ 16) (sym at) (pow-le-pow_right (omega arith) high) in
    (
      sized,
      layout-InOrder map (length r.slots) (length r.module_active) (length r.hosts) slots counts
          (omega arith) aligned room,
    )
