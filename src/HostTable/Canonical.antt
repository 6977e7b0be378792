-- ===== src/HostTable/Canonical.antt =====
-- Interning a source gives the bucket that every later lookup of the source finds.
use mathlib.Core.Path.{subst}
use fast_sync.Prelude.{
  ℕ, zero, suc, ◌<◌, ◌≡◌, ◌≢◌, inl, inr, refl, sym, ap, ◌∙◌, List, [], ◌∷◌, true, Option, none,
  some, arith, ◌==◌, Bool-cases, length, modify, length-modify, get_or-modify_self,
  get_or-modify_ne,
}
use fast_sync.HostTable.{
  Bucket, empty_bucket, probe_index, key_at, Probe, found, empty, full, intern_scan, stamp, reuse,
  settle, evict_for, intern_key,
}
use fast_sync.HostTable.Probing.{
  ==-eq, ==-ne, probe_index-lt, probe_index-length, Canonical, lookup_scan-Canonical, AllOther,
  NoneIdle, Ends, intern_scan_lem,
}

pub key_at-modify_kept :
    (hosts : List Bucket) (j : ℕ) (f : Bucket → Bucket) (i : ℕ)
    → ((b : Bucket) → (f b).key ≡ b.key)
    → key_at (modify hosts j f) i ≡ key_at hosts i
key_at-modify_kept [] j f i k = refl
key_at-modify_kept (b ∷ hosts) zero f zero k = k b
key_at-modify_kept (b ∷ hosts) zero f (suc i) k = refl
key_at-modify_kept (b ∷ hosts) (suc j) f zero k = refl
key_at-modify_kept (b ∷ hosts) (suc j) f (suc i) k = key_at-modify_kept hosts j f i k

-- The parts of `Canonical` that a write to bucket `j` may touch, read after the write.
module _ (hosts : List Bucket) (j : ℕ) (f : Bucket → Bucket) where
  probe-modify : (key i : ℕ) → probe_index (modify hosts j f) key i ≡ probe_index hosts key i
  probe-modify key i = probe_index-length hosts (modify hosts j f) key i (length-modify hosts j f)

  -- It is enough to say what the write makes of each bucket's key.
  pub modify-Canonical :
      (key idx d : ℕ)
      → d < length hosts
      → probe_index hosts key d ≡ idx
      → key_at (modify hosts j f) idx ≡ key
      → ((e : ℕ)
          → e < d
          → (key_at (modify hosts j f) (probe_index hosts key e) ≢ 0)
            × (key_at (modify hosts j f) (probe_index hosts key e) ≡ key
                → probe_index hosts key e ≡ idx))
      → Canonical (modify hosts j f) key idx
  modify-Canonical key idx d within at holds before = record {
    rounds = d;
    within = omega (arith, length-modify hosts j f);
    at = probe-modify key d ∙ at;
    holds = holds;
    before = λ e below.
        subst
          (λ x. (key_at (modify hosts j f) x ≢ 0) × (key_at (modify hosts j f) x ≡ key → x ≡ idx))
          (sym (probe-modify key e)) (before e below);
  }

pub kept-Canonical :
    (hosts : List Bucket) (j : ℕ) (f : Bucket → Bucket) (key idx : ℕ)
    → ((b : Bucket) → (f b).key ≡ b.key)
    → Canonical hosts key idx
    → Canonical (modify hosts j f) key idx
kept-Canonical hosts j f key idx k c =
    modify-Canonical hosts j f key idx c.rounds c.within c.at
      (key_at-modify_kept hosts j f idx k ∙ c.holds)
      (λ e below.
        subst (λ x. (x ≢ 0) × (x ≡ key → probe_index hosts key e ≡ idx))
          (sym (key_at-modify_kept hosts j f (probe_index hosts key e) k)) (c.before e below))

-- A write of a key at the first round that can take it.
taken-Canonical :
    (hosts : List Bucket) (f : Bucket → Bucket) (key idx d : ℕ)
    → key ≢ 0
    → ((b : Bucket) → (f b).key ≡ key)
    → d < length hosts
    → probe_index hosts key d ≡ idx
    → AllOther hosts key d
    → Canonical (modify hosts idx f) key idx
taken-Canonical hosts f key idx d nonzero k within at others =
    modify-Canonical hosts idx f key idx d within at written before
  where
    inside : idx < length hosts
    inside = subst (λ x. x < length hosts) at (probe_index-lt hosts key d (omega arith))

    written : key_at (modify hosts idx f) idx ≡ key
    written = ap (λ b. b.key) (get_or-modify_self hosts idx f empty_bucket inside) ∙ k _

    before :
        (e : ℕ)
        → e < d
        → (key_at (modify hosts idx f) (probe_index hosts key e) ≢ 0)
          × (key_at (modify hosts idx f) (probe_index hosts key e) ≡ key
              → probe_index hosts key e ≡ idx)
    before e below = elim (Bool-cases (idx == probe_index hosts key e)) [
      | inl same ↦
          let here : idx ≡ probe_index hosts key e = ==-eq _ _ same in
          (λ z. nonzero (sym written ∙ ap (key_at (modify hosts idx f)) here ∙ z), λ z. sym here)
      | inr differ ↦
          let kept =
            ap (λ b. b.key)
              (get_or-modify_ne hosts idx (probe_index hosts key e) f empty_bucket
                (==-ne _ _ differ)) in
          (λ z. (others e below).1 (sym kept ∙ z), λ z. absurd ((others e below).0 (sym kept ∙ z)))
    ]

-- A write of another key to another bucket.
pub other-Canonical :
    (hosts : List Bucket) (j : ℕ) (f : Bucket → Bucket) (key other idx : ℕ)
    → other ≢ 0
    → other ≢ key
    → ((b : Bucket) → (f b).key ≡ other)
    → j < length hosts
    → j ≢ idx
    → Canonical hosts key idx
    → Canonical (modify hosts j f) key idx
other-Canonical hosts j f key other idx nonzero differs k inside apart c =
    modify-Canonical hosts j f key idx c.rounds c.within c.at
      (ap (λ b. b.key) (get_or-modify_ne hosts j idx f empty_bucket apart) ∙ c.holds) before
  where
    written : key_at (modify hosts j f) j ≡ other
    written = ap (λ b. b.key) (get_or-modify_self hosts j f empty_bucket inside) ∙ k _

    before :
        (e : ℕ)
        → e < c.rounds
        → (key_at (modify hosts j f) (probe_index hosts key e) ≢ 0)
          × (key_at (modify hosts j f) (probe_index hosts key e) ≡ key
              → probe_index hosts key e ≡ idx)
    before e below = elim (Bool-cases (j == probe_index hosts key e)) [
      | inl same ↦
          let there = sym written ∙ ap (key_at (modify hosts j f)) (==-eq _ _ same) in
          (λ z. nonzero (there ∙ z), λ z. absurd (differs (there ∙ z)))
      | inr differ ↦
          let kept =
            ap (λ b. b.key)
              (get_or-modify_ne hosts j (probe_index hosts key e) f empty_bucket
                (==-ne _ _ differ)) in
          (λ z. (c.before e below).0 (sym kept ∙ z), λ z. (c.before e below).1 (sym kept ∙ z))
    ]

-- A result of interning: nothing, and the table as it was; or the bucket of the key.
abbrev pub Interned : List Bucket → ℕ → Option ℕ × List Bucket → Type 0
Interned hosts key (none, hosts') = hosts' ≡ hosts
Interned hosts key (some idx, hosts') = Canonical hosts' key idx × (length hosts' ≡ length hosts)

-- The scan after an eviction finds the evicted bucket.
pub evict_for_eq :
    (hosts : List Bucket) (key now evict d : ℕ)
    → key ≢ 0
    → d < length hosts
    → probe_index hosts key d ≡ evict
    → AllOther hosts key (length hosts)
    → Canonical (modify hosts evict (reuse key now)) key evict
      × (evict_for hosts key now evict ≡ (some evict, modify hosts evict (reuse key now)))
unfolding evict_for settle
evict_for_eq hosts key now evict d nonzero within at others =
    let c =
      taken-Canonical hosts (reuse key now) key evict d nonzero (λ b. refl) within at
        (λ e below. others e (omega arith)) in
    let itself : (evict == evict) ≡ true = ground arith in
    (
      c,
      ap (settle (modify hosts evict (reuse key now)) evict)
            (lookup_scan-Canonical (modify hosts evict (reuse key now)) key evict c)
          ∙ rw itself refl,
    )

pub intern_key-Interned :
    (hosts : List Bucket) (key now : ℕ) → key ≢ 0 → Interned hosts key (intern_key hosts key now)
unfolding intern_key
intern_key-Interned hosts key now nonzero =
    go (intern_scan hosts key now (length hosts) 0 none) (intern_scan_lem hosts key now)
  where
    go :
        (p : Probe)
        → Ends hosts key now p
        → Interned hosts key (elim p [
          | found idx ↦ (some idx, modify hosts idx (stamp now))
          | empty idx ↦ (some idx, modify hosts idx (λ b. record b { key = key; last_use = now }))
          | full none ↦ (none, hosts)
          | full (some evict) ↦ evict_for hosts key now evict
        ])
    go (found idx) c = (
      kept-Canonical hosts idx (stamp now) key idx (λ b. refl) c,
      length-modify hosts idx (stamp now),
    )
    go (empty idx) (d, within, at, blank, others) = (
      taken-Canonical hosts (λ b. record b { key = key; last_use = now }) key idx d nonzero
          (λ b. refl) within at others,
      length-modify hosts idx (λ b. record b { key = key; last_use = now }),
    )
    go (full none) others = refl
    go (full (some evict)) (inside, idle, (d, within, at), others) =
        let (c, e) = evict_for_eq hosts key now evict d nonzero within at others in
        subst (Interned hosts key) (sym e) (c, length-modify hosts evict (reuse key now))

-- Interning gives no bucket only when every bucket that the probe meets holds another source and none of
-- them may be taken over.
pub intern_key-Full :
    (hosts : List Bucket) (key now : ℕ) {hosts' : List Bucket}
    → key ≢ 0
    → intern_key hosts key now ≡ (none, hosts')
    → AllOther hosts key (length hosts) × NoneIdle hosts key now (length hosts)
unfolding intern_key
intern_key-Full hosts key now {hosts'} nonzero =
    go (intern_scan hosts key now (length hosts) 0 none) (intern_scan_lem hosts key now)
  where
    go :
        (p : Probe)
        → Ends hosts key now p
        → ◌≡◌ {A = Option ℕ × List Bucket}
            (elim p [
              | found idx ↦ (some idx, modify hosts idx (stamp now))
              | empty idx ↦
                  (some idx, modify hosts idx (λ b. record b { key = key; last_use = now }))
              | full none ↦ (none, hosts)
              | full (some evict) ↦ evict_for hosts key now evict
            ])
            (none, hosts')
        → AllOther hosts key (length hosts) × NoneIdle hosts key now (length hosts)
    go (found idx) c e = cc
    go (empty idx) c e = cc
    go (full none) others e = others
    go (full (some evict)) (inside, idle, (d, within, at), others) e =
        let taken = (evict_for_eq hosts key now evict d nonzero within at others).1 in
        cc (sym taken ∙ e)
