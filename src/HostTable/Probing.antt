-- ===== src/HostTable/Probing.antt =====
-- What the two probing loops find.
use mathlib.Core.Path.{subst}
use fast_sync.Prelude.{
  ℕ, zero, suc, ◌+◌, ◌-◌, ◌≤◌, ◌<◌, ◌≡◌, ◌≢◌, inl, inr, refl, sym, ap, ◌∙◌, List, Bool, true, false,
  Option, none, some, arith, bit_and, ◌==◌, if◌then◌else◌, Bool-cases, ==_iff, length, get_or,
}
use fast_sync.Prelude.Bits.{bit_and-le_right}
use fast_sync.HostTable.{
  Bucket, empty_bucket, probe_index, key_at, lookup_scan, reclaimable, Probe, found, empty, full,
  candidate, intern_scan,
}

pub ==-eq : (a b : ℕ) → (a == b) ≡ true → a ≡ b
==-eq a b h = ground arith

pub ==-ne : (a b : ℕ) → (a == b) ≡ false → a ≢ b
==-ne a b h e = ground arith

pub probe_index-lt :
    (hosts : List Bucket) (key i : ℕ) → 0 < length hosts → probe_index hosts key i < length hosts
unfolding probe_index
probe_index-lt hosts key i h =
    omega (arith, bit_and-le_right (bit_and key (length hosts - 1) + i) (length hosts - 1))

pub probe_index-length :
    (hosts hosts' : List Bucket) (key i : ℕ)
    → length hosts' ≡ length hosts
    → probe_index hosts' key i ≡ probe_index hosts key i
unfolding probe_index
probe_index-length hosts hosts' key i e = ap (λ n. bit_and (bit_and key (n - 1) + i) (n - 1)) e

-- A probe for the key stops at bucket `idx` or goes on.
pub record Canonical (hosts : List Bucket) (key idx : ℕ) : Type 0 where
  pub rounds : ℕ
  pub within : rounds < length hosts
  pub at : probe_index hosts key rounds ≡ idx
  pub holds : key_at hosts idx ≡ key
  pub before :
      (e : ℕ)
      → e < rounds
      → (key_at hosts (probe_index hosts key e) ≢ 0)
        × (key_at hosts (probe_index hosts key e) ≡ key → probe_index hosts key e ≡ idx)

module _ (hosts : List Bucket) (key : ℕ) where
  lookup_scan-found :
      (left i idx : ℕ)
      → probe_index hosts key i ≡ idx
      → key_at hosts idx ≡ key
      → lookup_scan hosts key (suc left) i ≡ some idx
  unfolding lookup_scan
  lookup_scan-found left i idx at holds =
      let hit : (key_at hosts (probe_index hosts key i) == key) ≡ true =
        (==_iff _ key).1 (ap (key_at hosts) at ∙ holds) in
      rw hit (ap some at)

  lookup_scan-on :
      (left i : ℕ)
      → key_at hosts (probe_index hosts key i) ≢ key
      → key_at hosts (probe_index hosts key i) ≢ 0
      → lookup_scan hosts key (suc left) i ≡ lookup_scan hosts key left (i + 1)
  unfolding lookup_scan
  lookup_scan-on left i other used =
      let miss : (key_at hosts (probe_index hosts key i) == key) ≡ false = ground arith in
      let full_bucket : (key_at hosts (probe_index hosts key i) == 0) ≡ false = ground arith in
      rw (miss, full_bucket) refl

  lookup_scan-Canonical_from :
      (left i idx : ℕ) (c : Canonical hosts key idx)
      → i ≤ c.rounds
      → c.rounds < i + left
      → lookup_scan hosts key left i ≡ some idx
  lookup_scan-Canonical_from zero i idx c low high = absurd (omega arith)
  lookup_scan-Canonical_from (suc left) i idx c low high = elim (Bool-cases (i == c.rounds)) [
    | inl e ↦
        lookup_scan-found left i idx (ap (probe_index hosts key) (==-eq i c.rounds e) ∙ c.at)
          c.holds
    | inr e ↦
        let (used, same) = c.before i (ground arith) in
        elim (Bool-cases (key_at hosts (probe_index hosts key i) == key)) [
          | inl hit ↦ lookup_scan-found left i idx (same (==-eq _ key hit)) c.holds
          | inr miss ↦
              lookup_scan-on left i (==-ne _ key miss) used
              ∙ lookup_scan-Canonical_from left (i + 1) idx c (ground arith) (omega arith)
        ]
  ]

  pub lookup_scan-Canonical :
      (idx : ℕ) → Canonical hosts key idx → lookup_scan hosts key (length hosts) 0 ≡ some idx
  lookup_scan-Canonical idx c =
      lookup_scan-Canonical_from (length hosts) 0 idx c (omega arith) (omega (arith, c.within))

  -- The buckets of the first `n` rounds belong to other sources.
  abbrev pub AllOther : ℕ → Type 0
  AllOther n =
      (e : ℕ)
      → e < n
      → (key_at hosts (probe_index hosts key e) ≢ key)
        × (key_at hosts (probe_index hosts key e) ≢ 0)

  AllOther-suc :
      (i : ℕ)
      → AllOther i
      → key_at hosts (probe_index hosts key i) ≢ key
      → key_at hosts (probe_index hosts key i) ≢ 0
      → AllOther (i + 1)
  AllOther-suc i others other used e below = elim (Bool-cases (e == i)) [
    | inl same ↦
        subst
          (λ x.
            (key_at hosts (probe_index hosts key x) ≢ key)
            × (key_at hosts (probe_index hosts key x) ≢ 0))
          (sym (==-eq e i same)) (other, used)
    | inr differ ↦ others e (ground arith)
  ]

  -- None of the buckets of the first `n` rounds may be taken over.
  abbrev pub NoneIdle : ℕ → ℕ → Type 0
  NoneIdle now n =
      (e : ℕ)
      → e < n
      → reclaimable (get_or hosts (probe_index hosts key e) empty_bucket) now ≡ false

  NoneIdle-suc :
      (now i : ℕ)
      → NoneIdle now i
      → reclaimable (get_or hosts (probe_index hosts key i) empty_bucket) now ≡ false
      → NoneIdle now (i + 1)
  NoneIdle-suc now i before last e below = elim (Bool-cases (e == i)) [
    | inl same ↦
        subst (λ x. reclaimable (get_or hosts (probe_index hosts key x) empty_bucket) now ≡ false)
          (sym (==-eq e i same)) last
    | inr differ ↦ before e (ground arith)
  ]

  -- What the end of the probe of `host_intern` says of the table.
  abbrev pub Ends : ℕ → Probe → Type 0
  Ends now (found idx) = Canonical hosts key idx
  Ends now (empty idx) =
      (d : ℕ) × (d < length hosts)
      × (probe_index hosts key d ≡ idx)
      × (key_at hosts idx ≡ 0)
      × AllOther d
  Ends now (full none) = AllOther (length hosts) × NoneIdle now (length hosts)
  Ends now (full (some evict)) =
      (evict < length hosts)
      × (reclaimable (get_or hosts evict empty_bucket) now ≡ true)
      × ((d : ℕ) × (d < length hosts) × (probe_index hosts key d ≡ evict))
      × AllOther (length hosts)

  -- The candidate for eviction that the loop carries after `i` rounds.
  abbrev IsCandidate : ℕ → ℕ → Option ℕ → Type 0
  IsCandidate now i none = NoneIdle now i
  IsCandidate now i (some evict) =
      (evict < length hosts)
      × (reclaimable (get_or hosts evict empty_bucket) now ≡ true)
      × ((d : ℕ) × (d < length hosts) × (probe_index hosts key d ≡ evict))

  candidate-IsCandidate :
      (now i : ℕ) (evict : Option ℕ)
      → i < length hosts
      → IsCandidate now i evict
      → IsCandidate now (i + 1) (candidate hosts now (probe_index hosts key i) evict)
  candidate-IsCandidate now i (some evict) h c = c
  candidate-IsCandidate now i none h c =
      go (reclaimable (get_or hosts (probe_index hosts key i) empty_bucket) now) refl
    where
      go :
          (b : Bool)
          → reclaimable (get_or hosts (probe_index hosts key i) empty_bucket) now ≡ b
          → IsCandidate now (i + 1) (if b then some (probe_index hosts key i) else none)
      go true e = (probe_index-lt hosts key i (omega arith), e, (i, h, refl))
      go false e = NoneIdle-suc now i c e

  full_end :
      (now : ℕ) (evict : Option ℕ)
      → IsCandidate now (length hosts) evict
      → AllOther (length hosts)
      → Ends now (full evict)
  full_end now none c others = (others, c)
  full_end now (some evict) c others = (c.0, c.1, c.2, others)

  intern_scan-Ends :
      (now left i : ℕ) (evict : Option ℕ)
      → i + left ≡ length hosts
      → AllOther i
      → IsCandidate now i evict
      → Ends now (intern_scan hosts key now left i evict)
  unfolding intern_scan
  intern_scan-Ends now zero i evict sum others c =
      full_end now evict
        (subst (λ n. IsCandidate now n evict) {x = i} {y = length hosts} (omega arith) c)
        (subst AllOther {x = i} {y = length hosts} (omega arith) others)
  intern_scan-Ends now (suc left) i evict sum others c =
      go (key_at hosts (probe_index hosts key i) == key)
        (key_at hosts (probe_index hosts key i) == 0) refl refl
        (λ other used.
          intern_scan-Ends now left (i + 1) (candidate hosts now (probe_index hosts key i) evict)
            (omega arith) (AllOther-suc i others other used)
            (candidate-IsCandidate now i evict (omega arith) c))
    where
      go :
          (hit blank : Bool)
          → (key_at hosts (probe_index hosts key i) == key) ≡ hit
          → (key_at hosts (probe_index hosts key i) == 0) ≡ blank
          → (key_at hosts (probe_index hosts key i) ≢ key
              → key_at hosts (probe_index hosts key i) ≢ 0
              → Ends now (
                  intern_scan hosts key now left
                    (i + 1)
                    (candidate hosts now (probe_index hosts key i) evict)))
          → Ends now (
              if hit
              then found (probe_index hosts key i)
              else if blank
              then empty (probe_index hosts key i)
              else intern_scan hosts key now left
                  (i + 1)
                  (candidate hosts now (probe_index hosts key i) evict))
      go true blank h b rest = record {
        rounds = i;
        within = omega arith;
        at = refl;
        holds = ==-eq _ key h;
        before = λ e below. ((others e below).1, λ same. absurd ((others e below).0 same));
      }
      go false true h b rest = (i, omega arith, refl, ==-eq _ 0 b, others)
      go false false h b rest = rest (==-ne _ key h) (==-ne _ 0 b)

  pub intern_scan_lem : (now : ℕ) → Ends now (intern_scan hosts key now (length hosts) 0 none)
  intern_scan_lem now =
      intern_scan-Ends now (length hosts) 0 none (omega arith) (λ e h. absurd (omega arith))
        (λ e h. absurd (omega arith))
