-- ===== src/HostTable/Lasting.antt =====
-- What lookups and rewrites of whole tables do to a lockout.
use mathlib.Core.Path.{subst}
use fast_sync.Prelude.{
  ℕ, zero, suc, ◌+◌, ◌≤◌, ◌≡◌, ◌⊎◌, inl, inr, refl, sym, ap, ◌∙◌, List, true, false, Option, none,
  some, arith, ◌==◌, Bool-cases, length, modify,
}
use fast_sync.HostTable.{
  Bucket, Net, host_hash, probe_index, key_at, lookup_scan, stamp, looked_up, lookup_hashed,
  host_lookup,
}
use fast_sync.HostTable.Probing.{==-eq, probe_index-length, lookup_scan-Canonical}
use fast_sync.HostTable.Keeps.{Locked, until_at, kept-Locked}

-- Tables with the same keys and deadlines.
pub record Alike (hosts hosts' : List Bucket) : Type 0 where
  pub size : length hosts' ≡ length hosts
  pub keys : (i : ℕ) → key_at hosts' i ≡ key_at hosts i
  pub deadlines : (i : ℕ) → until_at hosts' i ≡ until_at hosts i

pub Alike-Locked :
    (hosts hosts' : List Bucket) (key deadline : ℕ)
    → Alike hosts hosts'
    → Locked hosts key deadline
    → Locked hosts' key deadline
Alike-Locked hosts hosts' key deadline same l =
    let probe : (i : ℕ) → probe_index hosts' key i ≡ probe_index hosts key i =
      λ i. probe_index-length hosts hosts' key i same.size in
    let at : (i : ℕ)
        → key_at hosts' (probe_index hosts' key i) ≡ key_at hosts (probe_index hosts key i) =
      λ i. ap (key_at hosts') (probe i) ∙ same.keys (probe_index hosts key i) in
    let c = l.canonical in
    record {
      bucket = l.bucket;
      canonical = record {
        rounds = c.rounds;
        within = omega (arith, c.within, same.size);
        at = probe c.rounds ∙ c.at;
        holds = same.keys l.bucket ∙ c.holds;
        before = λ e h.
            let (used, stop) = c.before e h in
            (λ z. used (sym (at e) ∙ z), λ k. probe e ∙ stop (sym (at e) ∙ k));
      };
      lasts = subst (λ n. deadline ≤ n) (sym (same.deadlines l.bucket)) l.lasts;
    }

-- A lookup finds the key that it looks for.
pub lookup_scan-key :
    (hosts : List Bucket) (key left i idx : ℕ)
    → lookup_scan hosts key left i ≡ some idx
    → key_at hosts idx ≡ key
unfolding lookup_scan
lookup_scan-key hosts key zero i idx h = cc
lookup_scan-key hosts key (suc left) i idx h =
    go (Bool-cases (key_at hosts (probe_index hosts key i) == key))
      (Bool-cases (key_at hosts (probe_index hosts key i) == 0))
      (lookup_scan-key hosts key left (i + 1) idx)
  where
    at : ℕ
    at = probe_index hosts key i

    go :
        ((key_at hosts at == key) ≡ true) ⊎ ((key_at hosts at == key) ≡ false)
        → ((key_at hosts at == 0) ≡ true) ⊎ ((key_at hosts at == 0) ≡ false)
        → (lookup_scan hosts key left (i + 1) ≡ some idx → key_at hosts idx ≡ key)
        → key_at hosts idx ≡ key
    go (inl e) other rest =
        let here : some at ≡ some idx = sym (rw e refl) ∙ h in
        let same : at ≡ idx = cc here in ap (key_at hosts) (sym same) ∙ ==-eq _ _ e
    go (inr e) (inl z) rest = let nothing : none ≡ some idx = sym (rw (e, z) refl) ∙ h in cc nothing
    go (inr e) (inr z) rest = rest (sym (rw (e, z) refl) ∙ h)

pub looked_up-Locked :
    (hosts : List Bucket) (now : ℕ) (o : Option ℕ) (key deadline : ℕ)
    → Locked hosts key deadline
    → Locked (looked_up hosts now o).1 key deadline
looked_up-Locked hosts now none key deadline l = l
looked_up-Locked hosts now (some idx) key deadline l =
    kept-Locked hosts idx (stamp now) key deadline (λ b. refl) (λ b h. h) l

pub host_lookup-Locked :
    (net : Net) (hosts : List Bucket) (peer_ip : List ℕ) (now key deadline : ℕ)
    → Locked hosts key deadline
    → Locked (host_lookup net hosts peer_ip now).1 key deadline
unfolding host_lookup
host_lookup-Locked net hosts peer_ip now key deadline l = go (host_hash net peer_ip)
  where
    go : (k : Option ℕ) → Locked (lookup_hashed hosts k now).1 key deadline
    go none = l
    go (some other) =
        looked_up-Locked hosts now (lookup_scan hosts other (length hosts) 0) key deadline l

-- The source's own lookup finds its bucket.
pub host_lookup-some :
    (net : Net) (hosts : List Bucket) (peer_ip : List ℕ) (now key deadline : ℕ)
    → host_hash net peer_ip ≡ some key
    → (l : Locked hosts key deadline)
    → host_lookup net hosts peer_ip now ≡ (some l.bucket, modify hosts l.bucket (stamp now))
unfolding host_lookup
host_lookup-some net hosts peer_ip now key deadline h l =
    ap (λ k. lookup_hashed hosts k now) h
    ∙ ap (looked_up hosts now) (lookup_scan-Canonical hosts key l.bucket l.canonical)
