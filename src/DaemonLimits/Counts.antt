-- ===== src/DaemonLimits/Counts.antt =====
-- The slots that a counter of the registry stands for, and what writes do to their number.
use fast_sync.Prelude.{
  ℕ, zero, suc, ◌+◌, ◌≤◌, ◌<◌, ◌≡◌, refl, ap, List, [], ◌∷◌, Bool, true, false, ◌&&◌, Option, none,
  some, arith, ◌==◌, length, get_or, modify,
}
use fast_sync.HostTable.{Bucket, active_at}
use fast_sync.DaemonLimits.{
  Slot, free_slot, is_registered, zeroed, idle, bump_module, bump_host, enter,
}

abbrev pub is_at : Option ℕ → ℕ → Bool
is_at none i = false
is_at (some j) i = j == i

-- A registered slot of the module, and of the source's bucket.
abbrev pub on_module : ℕ → Slot → Bool
on_module m s = is_registered s.state && is_at s.module_index m

abbrev pub on_host : ℕ → Slot → Bool
on_host h s = is_registered s.state && is_at s.host h

abbrev pub bit : Bool → ℕ
bit true = 1
bit false = 0

abbrev pub count : (Slot → Bool) → List Slot → ℕ
count p [] = 0
count p (s ∷ slots) = bit (p s) + count p slots

pub count-modify :
    (p : Slot → Bool) (slots : List Slot) (i : ℕ) (f : Slot → Slot)
    → i < length slots
    → count p (modify slots i f) + bit (p (get_or slots i free_slot))
      ≡ count p slots + bit (p (f (get_or slots i free_slot)))
count-modify p [] i f h = absurd (omega arith)
count-modify p (s ∷ slots) zero f h = omega arith
count-modify p (s ∷ slots) (suc i) f h = omega (arith, count-modify p slots i f (omega arith))

-- A write that leaves no slot counted does not raise the number.
pub count-modify_le :
    (p : Slot → Bool) (slots : List Slot) (i : ℕ) (f : Slot → Slot)
    → ((s : Slot) → p (f s) ≡ false)
    → count p (modify slots i f) ≤ count p slots
count-modify_le p [] i f h = omega arith
count-modify_le p (s ∷ slots) zero f h = let none_counted = ap bit (h s) in omega arith
count-modify_le p (s ∷ slots) (suc i) f h = omega (arith, count-modify_le p slots i f h)

-- A write that keeps what counts keeps the number.
pub count-modify_eq :
    (p : Slot → Bool) (slots : List Slot) (i : ℕ) (f : Slot → Slot)
    → ((s : Slot) → p (f s) ≡ p s)
    → count p (modify slots i f) ≡ count p slots
count-modify_eq p [] i f h = refl
count-modify_eq p (s ∷ slots) zero f h = ap (λ b. bit b + count p slots) (h s)
count-modify_eq p (s ∷ slots) (suc i) f h = ap (λ n. bit (p s) + n) (count-modify_eq p slots i f h)

pub zeroed-get_or : (active : List ℕ) (m : ℕ) → get_or (zeroed active) m 0 ≡ 0
zeroed-get_or [] m = refl
zeroed-get_or (n ∷ active) zero = refl
zeroed-get_or (n ∷ active) (suc m) = zeroed-get_or active m

pub length-zeroed : (active : List ℕ) → length (zeroed active) ≡ length active
length-zeroed [] = refl
length-zeroed (n ∷ active) = ap suc (length-zeroed active)

pub active_at-idle : (hosts : List Bucket) (h : ℕ) → active_at (idle hosts) h ≡ 0
active_at-idle [] h = refl
active_at-idle (b ∷ hosts) zero = refl
active_at-idle (b ∷ hosts) (suc h) = active_at-idle hosts h

pub length-idle : (hosts : List Bucket) → length (idle hosts) ≡ length hosts
length-idle [] = refl
length-idle (b ∷ hosts) = ap suc (length-idle hosts)

pub modify-suc :
    (active : List ℕ) (m i : ℕ)
    → m < length active
    → get_or (modify active i suc) m 0 ≡ get_or active m 0 + bit (i == m)
modify-suc [] m i h = absurd (omega arith)
modify-suc (n ∷ active) zero zero h = omega arith
modify-suc (n ∷ active) zero (suc i) h =
    let other : (suc i == 0) ≡ false = ground arith in rw other (omega arith)
modify-suc (n ∷ active) (suc m) zero h =
    let other : (0 == suc m) ≡ false = ground arith in rw other (omega arith)
modify-suc (n ∷ active) (suc m) (suc i) h =
    let same : (suc i == suc m) ≡ (i == m) = ground arith in
    rw same (modify-suc active m i (omega arith))

pub modify-enter :
    (hosts : List Bucket) (h i : ℕ)
    → h < length hosts
    → active_at (modify hosts i enter) h ≡ active_at hosts h + bit (i == h)
modify-enter [] h i k = absurd (omega arith)
modify-enter (b ∷ hosts) zero zero k = omega arith
modify-enter (b ∷ hosts) zero (suc i) k =
    let other : (suc i == 0) ≡ false = ground arith in rw other (omega arith)
modify-enter (b ∷ hosts) (suc h) zero k =
    let other : (0 == suc h) ≡ false = ground arith in rw other (omega arith)
modify-enter (b ∷ hosts) (suc h) (suc i) k =
    let same : (suc i == suc h) ≡ (i == h) = ground arith in
    rw same (modify-enter hosts h i (omega arith))

pub bump_module_lem :
    (at : Option ℕ) (active : List ℕ) (m : ℕ)
    → m < length active
    → get_or (bump_module at active) m 0 ≡ get_or active m 0 + bit (is_at at m)
bump_module_lem none active m h = omega arith
bump_module_lem (some i) active m h = modify-suc active m i h

pub bump_host_lem :
    (at : Option ℕ) (hosts : List Bucket) (h : ℕ)
    → h < length hosts
    → active_at (bump_host at hosts) h ≡ active_at hosts h + bit (is_at at h)
bump_host_lem none hosts h k = omega arith
bump_host_lem (some i) hosts h k = modify-enter hosts h i k
