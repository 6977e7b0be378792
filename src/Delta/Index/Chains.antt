-- ===== src/Delta/Index/Chains.antt =====
-- Linked chains in an array of links, and what a write to the array does to them.
use fast_sync.Prelude.{
  ℕ, suc, ◌≤◌, ◌<◌, ◌≡◌, ◌≢◌, refl, ◌∙◌, List, [], ◌∷◌, ◌++◌, arith, length, get_or, set,
  get_or-set_self, get_or-set_ne, length-set,
}
use fast_sync.Delta.Index.{no_block}

-- From `head` the links go through these blocks and then end.
abbrev pub Chain : List ℕ → List ℕ → ℕ → Type 0
Chain next [] head = head ≡ no_block
Chain next (j ∷ js) head = (head ≡ j) × Chain next js (get_or next j no_block)

-- Strictly ascending, from `lo` on and below `hi`.
abbrev pub Ascending : ℕ → ℕ → List ℕ → Type 0
Ascending lo hi [] = Unit {0}
Ascending lo hi (j ∷ js) = (lo ≤ j) × (j < hi) × Ascending (suc j) hi js

abbrev pub All : (ℕ → Type 0) → List ℕ → Type 0
All P [] = Unit {0}
All P (j ∷ js) = P j × All P js

abbrev pub last_or : ℕ → List ℕ → ℕ
last_or d [] = d
last_or d (j ∷ js) = last_or j js

pub last_bounds :
    (lo hi j : ℕ) (js : List ℕ)
    → Ascending lo hi (j ∷ js)
    → (j ≤ last_or j js) × (last_or j js < hi)
last_bounds lo hi j [] h = omega arith
last_bounds lo hi j (i ∷ js) h = omega (arith, last_bounds (suc j) hi i js h.2)

pub last-All : (P : ℕ → Type 0) (j : ℕ) (js : List ℕ) → All P (j ∷ js) → P (last_or j js)
last-All P j [] h = h.0
last-All P j (i ∷ js) h = last-All P i js h.1

pub Ascending-ne : (lo hi k : ℕ) (js : List ℕ) → hi ≤ k → Ascending lo hi js → All (λ j. k ≢ j) js
Ascending-ne lo hi k [] p h = tt
Ascending-ne lo hi k (j ∷ js) p h = (omega arith, Ascending-ne (suc j) hi k js p h.2)

pub Ascending-snoc :
    (lo hi : ℕ) (js : List ℕ)
    → lo ≤ hi
    → Ascending lo hi js
    → Ascending lo (suc hi) (js ++ (hi ∷ []))
Ascending-snoc lo hi [] p h = (p, omega arith, tt)
Ascending-snoc lo hi (j ∷ js) p h = (h.0, omega arith, Ascending-snoc (suc j) hi js (h.1) h.2)

pub Ascending-weaken :
    (lo hi hi' : ℕ) (js : List ℕ) → hi ≤ hi' → Ascending lo hi js → Ascending lo hi' js
Ascending-weaken lo hi hi' [] p h = tt
Ascending-weaken lo hi hi' (j ∷ js) p h =
    (h.0, omega arith, Ascending-weaken (suc j) hi hi' js p h.2)

pub All-snoc : (P : ℕ → Type 0) (js : List ℕ) (k : ℕ) → All P js → P k → All P (js ++ (k ∷ []))
All-snoc P [] k h p = (p, tt)
All-snoc P (j ∷ js) k h p = (h.0, All-snoc P js k h.1 p)

pub last_or-snoc : (d : ℕ) (js : List ℕ) (k : ℕ) → last_or d (js ++ (k ∷ [])) ≡ k
last_or-snoc d [] k = refl
last_or-snoc d (j ∷ js) k = last_or-snoc j js k

-- A write to another block's link leaves the chain.
pub Chain-set :
    (next js : List ℕ) (head i v : ℕ)
    → All (λ j. i ≢ j) js
    → Chain next js head
    → Chain (set next i v) js head
Chain-set next [] head i v out h = h
Chain-set next (j ∷ js) head i v out h = (
  h.0,
  rw (get_or-set_ne next i j v no_block out.0)
      (Chain-set next js (get_or next j no_block) i v out.1 h.1),
)

-- Linking a new last block behind the old one.
pub Chain-snoc :
    (next : List ℕ) (j : ℕ) (js : List ℕ) (lo k head : ℕ)
    → Ascending lo k (j ∷ js)
    → k < length next
    → Chain next (j ∷ js) head
    → Chain (set (set next (last_or j js) k) k no_block) ((j ∷ js) ++ (k ∷ [])) head
Chain-snoc next j [] lo k head asc room h =
    let inside : k < length (set next j k) = rw length-set room in
    let own : get_or (set next j k) j no_block ≡ k =
      get_or-set_self next j k no_block (omega arith) in
    (
      h.0,
      (
        get_or-set_ne (set next j k) k j no_block no_block (omega arith) ∙ own,
        get_or-set_self (set next j k) k no_block no_block inside,
      ),
    )
Chain-snoc next j (i ∷ js) lo k head asc room h =
    let bounds : (i ≤ last_or i js) × (last_or i js < k) = last_bounds (suc j) k i js asc.2 in
    let t = last_or i js in
    (
      h.0,
      rw
          (
            get_or-set_ne (set next t k) k j no_block no_block (omega arith),
            get_or-set_ne next t j k no_block (omega arith),
          )
          (Chain-snoc next i js (suc j) k (get_or next j no_block) asc.2 room h.1),
    )
