-- ===== src/StopCondition/Deadline.antt =====
-- When a stop condition is reached.
use fast_sync.Prelude.{
  ℕ, ◌+◌, ◌*◌, ◌≤◌, ◌<◌, ◌≡◌, ◌↔◌, ◌⊎◌, inl, inr, true, false, ◌&&◌, ◌||◌, some, arith, ltb, leb,
  ◌==◌, Bool-cases,
}
use mathlib.Core.Path.{subst}
use fast_sync.Prelude.{Bool-cases, ltb, leb, if◌then◌else◌, none, refl, Bool, Option}
use fast_sync.StopCondition.{Timespec, make, reached, at_or_after}

-- Time `now` is not before `deadline`.
pub IsNotBefore : Timespec → Timespec → Type 0
IsNotBefore now deadline =
    (deadline.tv_sec < now.tv_sec)
    ⊎ ((now.tv_sec ≡ deadline.tv_sec) × (deadline.tv_nsec ≤ now.tv_nsec))

at_or_after-eq :
    (now deadline : Timespec) → (at_or_after now deadline ≡ true) ↔ IsNotBefore now deadline
unfolding IsNotBefore
at_or_after-eq now deadline = (
  λ h. later now.tv_sec now.tv_nsec deadline.tv_sec deadline.tv_nsec h,
  λ c. holds now.tv_sec now.tv_nsec deadline.tv_sec deadline.tv_nsec c,
)
  where
    later :
        (s n ds dn : ℕ)
        → (ltb ds s || s == ds && leb dn n) ≡ true
        → (ds < s) ⊎ ((s ≡ ds) × (dn ≤ n))
    later s n ds dn h = elim (Bool-cases (ltb ds s)) [
      | inl e ↦ inl (ground arith)
      | inr e ↦ inr (ground arith, ground arith)
    ]

    holds :
        (s n ds dn : ℕ)
        → (ds < s) ⊎ ((s ≡ ds) × (dn ≤ n))
        → (ltb ds s || s == ds && leb dn n) ≡ true
    holds s n ds dn (inl h) = ground arith
    holds s n ds dn (inr (e, h)) = ground arith

after_part :
    (has_after : Bool) (minutes : ℕ) (deadline : Timespec) (clock : Option Timespec)
    → (elim (if has_after && ltb 0 minutes then some deadline else none) [
      | none ↦ false
      | some d ↦ elim clock [ none ↦ false | some now ↦ at_or_after now d ]
    ]
        ≡ true)
      ↔ ((has_after ≡ true)
          × (0 < minutes)
          × ((now : Timespec) × (clock ≡ some now) × IsNotBefore now deadline))
after_part false minutes deadline clock = (λ h. cc, λ c. c.0)
after_part true minutes deadline none = (λ h. unreadable (ltb 0 minutes) h, λ c. never c.2.0 c.2.1)
  where
    never :
        (now : Timespec)
        → none ≡ some now
        → elim (if ltb 0 minutes then some deadline else none) [ none ↦ false | some d ↦ false ]
          ≡ true
    never now e = cc

    unreadable :
        (b : Bool)
        → elim (if b then some deadline else none) [ none ↦ false | some d ↦ false ] ≡ true
        → (true ≡ true)
          × (0 < minutes)
          × ((now : Timespec) × (none ≡ some now) × IsNotBefore now deadline)
    unreadable true h = cc
    unreadable false h = cc
after_part true minutes deadline (some now) = elim (Bool-cases (ltb 0 minutes)) [
  | inl e ↦ rw e (
    λ h. (refl, positive e, (now, refl, (at_or_after-eq now deadline).0 h)),
    λ c. (at_or_after-eq now deadline).1 (back c.2.0 c.2.1 c.2.2),
  )
  | inr e ↦ rw e (λ h. cc, λ c. absurd (zero_of e c.1))
]
  where
    positive : ltb 0 minutes ≡ true → 0 < minutes
    positive e = ground arith

    zero_of : ltb 0 minutes ≡ false → 0 < minutes → ⊥
    zero_of e h = ground arith

    same_now : (later : Timespec) → some now ≡ some later → later ≡ now
    same_now later e = cc

    back :
        (later : Timespec)
        → some now ≡ some later
        → IsNotBefore later deadline
        → IsNotBefore now deadline
    back later e b = subst (λ x. IsNotBefore x deadline) (same_now later e) b

-- A condition made at the monotonic time `start` from `--stop-after` and `--stop-at`, each given or
-- not, is reached exactly when the wall clock is at the given time or behind it, or a positive number
-- of minutes was given and so many have passed on a monotonic clock that can be read.
pub reached-make :
    (has_after has_at : Bool) (minutes at wall : ℕ) (start : Timespec) (clock : Option Timespec)
    → (reached (make has_after minutes has_at at start) wall clock ≡ true) ↔ (
        ((has_at ≡ true) × (at ≤ wall))
        ⊎ ((has_after ≡ true)
            × (0 < minutes)
            × ((now : Timespec) × (clock ≡ some now)
                × IsNotBefore now
                    (record { tv_sec = start.tv_sec + minutes * 60; tv_nsec = start.tv_nsec }))))
unfolding make reached
reached-make has_after false minutes at wall start clock =
    let (to, from) =
      after_part has_after minutes
        (record { tv_sec = start.tv_sec + minutes * 60; tv_nsec = start.tv_nsec }) clock in
    (λ h. inr (to h), λ c. elim c [ inl w ↦ absurd (differ w.0) | inr m ↦ from m ])
  where
    differ : false ≡ true → ⊥
    differ e = cc
reached-make has_after true minutes at wall start clock =
    let (to, from) =
      after_part has_after minutes
        (record { tv_sec = start.tv_sec + minutes * 60; tv_nsec = start.tv_nsec }) clock in
    elim (Bool-cases (leb at wall)) [
      | inl e ↦ rw e (λ h. inl (refl, not_later e), λ c. refl)
      | inr e ↦
          rw e
            (λ h. inr (to h), λ c. elim c [ inl w ↦ absurd (still_later e w.1) | inr m ↦ from m ])
    ]
  where
    not_later : leb at wall ≡ true → at ≤ wall
    not_later e = ground arith

    still_later : leb at wall ≡ false → at ≤ wall → ⊥
    still_later e h = ground arith
