-- ===== src/HostTable/Keeps.antt =====
-- A lockout stays in the table until its deadline, whatever other sources do.
use mathlib.Core.Path.{subst}
use fast_sync.Prelude.{
  ℕ, zero, suc, ◌≤◌, ◌<◌, ◌≡◌, ◌≢◌, inl, inr, refl, sym, ap, ◌∙◌, List, [], ◌∷◌, true, false, not,
  leb, Option, none, some, arith, ◌==◌, Bool-cases, length, get_or, modify, get_or-modify_ne,
}
use fast_sync.HostTable.{
  Bucket, empty_bucket, probe_index, key_at, Probe, found, empty, full, intern_scan, stamp, reuse,
  evict_for, intern_key, reclaimable,
}
use fast_sync.HostTable.Probing.{
  ==-eq, ==-ne, probe_index-lt, Canonical, lookup_scan-Canonical, AllOther, Ends, intern_scan_lem,
}
use fast_sync.HostTable.Canonical.{kept-Canonical, other-Canonical, evict_for_eq}

abbrev pub until_at : List Bucket → ℕ → ℕ
until_at hosts idx = (get_or hosts idx empty_bucket).until

-- The source's bucket, and its lockout up to the deadline.
pub record Locked (hosts : List Bucket) (key deadline : ℕ) : Type 0 where
  pub bucket : ℕ
  pub canonical : Canonical hosts key bucket
  pub lasts : deadline ≤ until_at hosts bucket

until_at-modify :
    (hosts : List Bucket) (j : ℕ) (f : Bucket → Bucket) (i deadline : ℕ)
    → ((b : Bucket) → deadline ≤ b.until → deadline ≤ (f b).until)
    → deadline ≤ until_at hosts i
    → deadline ≤ until_at (modify hosts j f) i
until_at-modify [] j f i deadline k h = h
until_at-modify (b ∷ hosts) zero f zero deadline k h = k b h
until_at-modify (b ∷ hosts) zero f (suc i) deadline k h = h
until_at-modify (b ∷ hosts) (suc j) f zero deadline k h = h
until_at-modify (b ∷ hosts) (suc j) f (suc i) deadline k h =
    until_at-modify hosts j f i deadline k h

-- A write that keeps the key and does not shorten the lockout.
pub kept-Locked :
    (hosts : List Bucket) (j : ℕ) (f : Bucket → Bucket) (key deadline : ℕ)
    → ((b : Bucket) → (f b).key ≡ b.key)
    → ((b : Bucket) → deadline ≤ b.until → deadline ≤ (f b).until)
    → Locked hosts key deadline
    → Locked (modify hosts j f) key deadline
kept-Locked hosts j f key deadline k u l = record {
  bucket = l.bucket;
  canonical = kept-Canonical hosts j f key l.bucket k l.canonical;
  lasts = until_at-modify hosts j f l.bucket deadline u l.lasts;
}

-- A write to another bucket that keeps the key.
pub apart-Locked :
    (hosts : List Bucket) (j : ℕ) (f : Bucket → Bucket) (key deadline : ℕ)
    → ((b : Bucket) → (f b).key ≡ b.key)
    → (l : Locked hosts key deadline) → j ≢ l.bucket
    → Locked (modify hosts j f) key deadline
apart-Locked hosts j f key deadline k l apart = record {
  bucket = l.bucket;
  canonical = kept-Canonical hosts j f key l.bucket k l.canonical;
  lasts =
      subst (λ b. deadline ≤ b.until) (sym (get_or-modify_ne hosts j l.bucket f empty_bucket apart))
        l.lasts;
}

-- A write of another source's key to another bucket.
other-Locked :
    (hosts : List Bucket) (j : ℕ) (f : Bucket → Bucket) (key other deadline : ℕ)
    → other ≢ 0
    → other ≢ key
    → ((b : Bucket) → (f b).key ≡ other)
    → j < length hosts
    → (l : Locked hosts key deadline) → j ≢ l.bucket
    → Locked (modify hosts j f) key deadline
other-Locked hosts j f key other deadline nonzero differs k inside l apart = record {
  bucket = l.bucket;
  canonical =
      other-Canonical hosts j f key other l.bucket nonzero differs k inside apart l.canonical;
  lasts =
      subst (λ b. deadline ≤ b.until) (sym (get_or-modify_ne hosts j l.bucket f empty_bucket apart))
        l.lasts;
}

pub Canonical-unique :
    (hosts : List Bucket) (key i j : ℕ) → Canonical hosts key i → Canonical hosts key j → i ≡ j
Canonical-unique hosts key i j c d =
    let same = sym (lookup_scan-Canonical hosts key i c) ∙ lookup_scan-Canonical hosts key j d in cc

-- A bucket that is locked after `now` is not reclaimable.
locked-reclaimable :
    (b : Bucket) (now deadline : ℕ)
    → now < deadline
    → deadline ≤ b.until
    → reclaimable b now ≡ false
unfolding reclaimable
locked-reclaimable b now deadline h l =
    let used : not (b.until == 0) ≡ true = ground arith in
    let later : leb b.until now ≡ false = ground arith in
    elim (Bool-cases (not (b.active == 0))) [ inl e ↦ rw e refl | inr e ↦ rw (e, used, later) refl ]

-- With its bucket in the table, the source's own probe goes nowhere else.
no_other_end :
    (hosts : List Bucket) (key idx d : ℕ)
    → key ≢ 0
    → Canonical hosts key idx
    → AllOther hosts key d
    → d ≤ length hosts
    → (d < length hosts → key_at hosts (probe_index hosts key d) ≡ 0)
    → ⊥
no_other_end hosts key idx d nonzero c others within blank = elim (Bool-cases (leb d c.rounds)) [
  | inl e ↦
      let inside : d < length hosts = ground (arith, c.within) in
      elim (Bool-cases (d == c.rounds)) [
        | inl same ↦ nonzero (
            sym c.holds
            ∙ ap (key_at hosts) (sym c.at)
            ∙ ap (λ x. key_at hosts (probe_index hosts key x)) (sym (==-eq d c.rounds same))
            ∙ blank inside)
        | inr differ ↦ (c.before d (ground arith)).0 (blank inside)
      ]
  | inr e ↦ (others c.rounds (ground arith)).0 (ap (key_at hosts) c.at ∙ c.holds)
]

pub intern_key-Locked :
    (hosts : List Bucket) (key other now deadline : ℕ)
    → key ≢ 0
    → other ≢ 0
    → now < deadline
    → Locked hosts key deadline
    → Locked (intern_key hosts other now).1 key deadline
unfolding intern_key
intern_key-Locked hosts key other now deadline nonzero other_nonzero early l =
    go (intern_scan hosts other now (length hosts) 0 none) (intern_scan_lem hosts other now)
  where
    not_blank : (j : ℕ) → key_at hosts j ≡ 0 → j ≢ l.bucket
    not_blank j z e = nonzero (sym l.canonical.holds ∙ ap (key_at hosts) (sym e) ∙ z)

    not_reclaimed : (j : ℕ) → reclaimable (get_or hosts j empty_bucket) now ≡ true → j ≢ l.bucket
    not_reclaimed j r e =
        let kept =
          locked-reclaimable (get_or hosts l.bucket empty_bucket) now deadline early l.lasts in
        let same = ap (λ x. reclaimable (get_or hosts x empty_bucket) now) e in
        cc (sym kept ∙ sym same ∙ r)

    with_key :
        (x : ℕ) → other ≡ x → AllOther hosts other (length hosts) → AllOther hosts x (length hosts)
    with_key x e others = subst (λ k. AllOther hosts k (length hosts)) e others

    go :
        (p : Probe)
        → Ends hosts other now p
        → Locked
            (elim p as (λ _. Option ℕ × List Bucket) [
              | found idx ↦ (some idx, modify hosts idx (stamp now))
              | empty idx ↦
                  (some idx, modify hosts idx (λ b. record b { key = other; last_use = now }))
              | full none ↦ (none, hosts)
              | full (some evict) ↦ evict_for hosts other now evict
            ]).1
            key
            deadline
    go (found idx) c = kept-Locked hosts idx (stamp now) key deadline (λ b. refl) (λ b h. h) l
    go (empty idx) (d, within, at, blank, others) = elim (Bool-cases (other == key)) [
      | inl same ↦ absurd (
          no_other_end hosts other l.bucket d other_nonzero
            (subst (λ k. Canonical hosts k l.bucket) (sym (==-eq other key same)) l.canonical)
            others (omega arith) (λ h. ap (key_at hosts) at ∙ blank))
      | inr differ ↦
          other-Locked hosts idx (λ b. record b { key = other; last_use = now }) key other deadline
            other_nonzero (==-ne _ _ differ) (λ b. refl)
            (subst (λ x. x < length hosts) at (probe_index-lt hosts other d (omega arith))) l
            (not_blank idx blank)
    ]
    go (full none) others = l
    go (full (some evict)) (inside, idle, (d, within, at), others) =
        elim (Bool-cases (other == key)) [
          | inl same ↦ absurd (
              no_other_end hosts other l.bucket (length hosts) other_nonzero
                (subst (λ k. Canonical hosts k l.bucket) (sym (==-eq other key same)) l.canonical)
                others (omega arith) (λ h. absurd (omega arith)))
          | inr differ ↦
              subst (λ r. Locked r.1 key deadline)
                (sym (evict_for_eq hosts other now evict d other_nonzero within at others).1)
                (other-Locked hosts evict (reuse other now) key other deadline other_nonzero
                  (==-ne _ _ differ) (λ b. refl) inside l (not_reclaimed evict idle))
        ]
