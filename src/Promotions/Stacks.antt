-- ===== src/Promotions/Stacks.antt =====
-- The stack of candidates that apply together when none is exclusive.
use apparel_network.Prelude.{
  ℕ, suc, ◌+◌, ◌≤◌, ◌<◌, ◌≡◌, refl, ap, Bool, true, false, not, List, [], ◌∷◌, ◌++◌, map, length,
  All, All-map, sort_by, leb, ltb, ◌&&◌, ◌||◌, ◌==◌, ◌⊎◌, Bool-cases, inl, inr, arith, get_or_else,
  leb→lt, leb→le,
}
use apparel_network.Prelude.Pairs.{Apart, Apart-map}
use apparel_network.Prelude.Sorting.{
  Reordered, Reordered-sym, Reordered-middle, All-Reordered, length-Reordered, Reordered-sort_by,
  sort_by-Apart,
}
use apparel_network.Promotions.Model.{Candidate, RejectedPromotion}
use apparel_network.Promotions.Stacking.{precedes, reject, unstacked, least_stack, stack}
use apparel_network.Promotions.Combination.{before_total, before_trans}
use apparel_network.Promotions.Totals.{stack-All}
use apparel_network.Promotions.Limits.{
  AllowsAll, AtMost-default, Allows, least_stack-Allows, least_stack-least,
}

-- The candidate has the higher priority, or the same and the lower identifier.
abbrev pub Leads : Candidate → Candidate → Type 0
Leads a b =
    (b.promotion.priority < a.promotion.priority)
    ⊎ ((a.promotion.priority ≡ b.promotion.priority) × (a.promotion.id ≤ b.promotion.id))

-- No more of the candidates could apply together.
abbrev pub IsFull : List Candidate → ℕ → Type 0
IsFull cs k = (n : ℕ) → n ≤ length cs → AllowsAll n cs → n ≤ k

abbrev pub OthersStackable : List Candidate → Type 0
OthersStackable [] = Unit
OthersStackable (first ∷ others) = All (λ c. c.promotion.stackable ≡ true) others

-- The selected ones are in the order of their priorities, all but the first are stackable, there are
-- no more than any candidate allows; and one is passed over only when it is not stackable and another
-- one is selected, or when no more could apply together.
pub record IsStack (cs selected left : List Candidate) : Type 0 where
  pub ordered : Apart Leads selected
  pub stackable : OthersStackable selected
  pub limited : AllowsAll (length selected) cs
  pub passed_over :
      All
        (λ c.
          ((c.promotion.stackable ≡ false) × (1 ≤ length selected)) ⊎ IsFull cs (length selected))
        left

stack-limit :
    (limit taken : ℕ) (cs : List Candidate)
    → taken ≤ limit
    → taken + length (stack limit taken cs).0 ≤ limit
unfolding stack
stack-limit limit taken [] h = omega arith
stack-limit limit taken (c ∷ cs) h = elim (Bool-cases (leb limit taken)) [
  | inl t ↦ rw t (stack-limit limit taken cs h)
  | inr t ↦ elim (Bool-cases (ltb 0 taken && not c.promotion.stackable)) [
    | inl u ↦ rw (t, u) (stack-limit limit taken cs h)
    | inr u ↦
        rw (t, u)
          (let below = leb→lt limit taken t in
            let rest = stack-limit limit (suc taken) cs (omega arith) in omega arith)
  ]
]

-- why the loop passes over a candidate
abbrev Passed : ℕ → ℕ → Candidate → Type 0
Passed limit total c = ((c.promotion.stackable ≡ false) × (1 ≤ total)) ⊎ (limit ≤ total)

-- The loop parts the candidates.
abbrev Parts : ℕ → ℕ → List Candidate → List Candidate × List RejectedPromotion → Type 0
Parts limit total cs result =
    (left : List Candidate) × (result.1 ≡ map (reject unstacked) left)
    × Reordered cs (result.0 ++ left)
    × All (Passed limit total) left

stack-Parts :
    (limit taken total : ℕ) (cs : List Candidate)
    → taken + length (stack limit taken cs).0 ≡ total
    → Parts limit total cs (stack limit taken cs)
unfolding stack
stack-Parts limit taken total [] sum = ([], refl, Reordered.nothing, tt)
stack-Parts limit taken total (c ∷ cs) sum = elim (Bool-cases (leb limit taken)) [
  | inl t ↦ rw t (
      skip (inr (let full = leb→le limit taken t in let s = rw t at sum in omega arith))
        (stack limit taken cs) (stack-Parts limit taken total cs (rw t at sum)))
  | inr t ↦ elim (Bool-cases (ltb 0 taken && not c.promotion.stackable)) [
    | inl u ↦
        rw (t, u)
          (skip (inl (let s = rw (t, u) at sum in why taken total c.promotion.stackable _ u s))
            (stack limit taken cs) (stack-Parts limit taken total cs (rw (t, u) at sum)))
    | inr u ↦
        rw (t, u)
          (let rest =
              stack-Parts limit (suc taken) total cs (let s = rw (t, u) at sum in omega arith) in
            (rest.0, rest.1, Reordered.keep c _ _ rest.2, rest.3))
  ]
]
  where
    why :
        (k n : ℕ) (b : Bool) (rest : ℕ)
        → (ltb 0 k && not b) ≡ true
        → k + rest ≡ n
        → (b ≡ false) × (1 ≤ n)
    why k n b rest h s = (ground arith, ground arith)

    skip :
        Passed limit total c
        → (result : List Candidate × List RejectedPromotion) → Parts limit total cs result
        → Parts limit total (c ∷ cs) (result.0, reject unstacked c ∷ result.1)
    skip passed result rest = (
      c ∷ rest.0,
      ap (λ r. reject unstacked c ∷ r) rest.1,
      Reordered.chain _ _ _ (Reordered.keep c _ _ rest.2) (Reordered-middle c result.0 rest.0),
      (passed, rest.3),
    )

-- Once one is selected, all others are stackable.
stack-stackable :
    (limit taken : ℕ) (cs : List Candidate)
    → 1 ≤ taken
    → All (λ c. c.promotion.stackable ≡ true) (stack limit taken cs).0
unfolding stack
stack-stackable limit taken [] h = tt
stack-stackable limit taken (c ∷ cs) h =
    elim (Bool-cases (leb limit taken || (ltb 0 taken && not c.promotion.stackable))) [
      | inl t ↦ rw t (stack-stackable limit taken cs h)
      | inr t ↦ rw t (
        stacks limit taken c.promotion.stackable h t,
        stack-stackable limit (suc taken) cs (omega arith),
      )
    ]
  where
    stacks : (m k : ℕ) (b : Bool) → 1 ≤ k → (leb m k || (ltb 0 k && not b)) ≡ false → b ≡ true
    stacks m k b h e = ground arith

stack-OthersStackable : (limit : ℕ) (cs : List Candidate) → OthersStackable (stack limit 0 cs).0
unfolding stack
stack-OthersStackable limit [] = tt
stack-OthersStackable limit (c ∷ cs) =
    elim (Bool-cases (leb limit 0 || (ltb 0 0 && not c.promotion.stackable))) [
      | inl t ↦ rw t (stack-OthersStackable limit cs)
      | inr t ↦ rw t (stack-stackable limit 1 cs (omega arith))
    ]

stack-Apart :
    (R : Candidate → Candidate → Type 0) (limit taken : ℕ) (cs : List Candidate)
    → Apart R cs
    → Apart R (stack limit taken cs).0
unfolding stack
stack-Apart R limit taken [] h = tt
stack-Apart R limit taken (c ∷ cs) h =
    elim (Bool-cases (leb limit taken || (ltb 0 taken && not c.promotion.stackable))) [
      | inl t ↦ rw t (stack-Apart R limit taken cs h.1)
      | inr t ↦
          rw t (stack-All (R c) limit (suc taken) cs h.0, stack-Apart R limit (suc taken) cs h.1)
    ]

pub precedes-Leads : (a b : Candidate) → precedes a b ≡ true → Leads a b
unfolding precedes
precedes-Leads a b h =
    decide a.promotion.priority b.promotion.priority a.promotion.id b.promotion.id h
  where
    decide :
        (p q i j : ℕ) → (ltb q p || ((p == q) && leb i j)) ≡ true → (q < p) ⊎ ((p ≡ q) × (i ≤ j))
    decide p q i j h = ground arith

pub sorted_candidates :
    (cs : List Candidate) → Apart (λ a b. precedes a b ≡ true) (sort_by precedes cs)
sorted_candidates = sort_by-Apart precedes total transitive
  where
    total : (a b : Candidate) → precedes a b ≡ false → precedes b a ≡ true
    total a b h =
        unfold precedes in
        before_total a.promotion.priority a.promotion.id b.promotion.priority b.promotion.id h

    transitive :
        (a b c : Candidate) → precedes a b ≡ true → precedes b c ≡ true → precedes a c ≡ true
    transitive a b c h k =
        unfold precedes in
        before_trans a.promotion.priority a.promotion.id b.promotion.priority b.promotion.id
          c.promotion.priority c.promotion.id h k

-- the stack of the sorted candidates, as the loop makes it
pub stacked_from :
    (cs : List Candidate)
    → let ordered = sort_by precedes cs in
      let result = stack (get_or_else (least_stack ordered) (length ordered)) 0 ordered in
      (left : List Candidate) × (result.1 ≡ map (reject unstacked) left)
      × Reordered cs (result.0 ++ left)
      × IsStack cs result.0 left
stacked_from cs = (
  parts.0,
  parts.1,
  Reordered.chain _ _ _ same parts.2,
  record {
    ordered =
        stack-Apart Leads limit 0 ordered
          (Apart-map _ Leads precedes-Leads ordered (sorted_candidates cs));
    stackable = stack-OthersStackable limit ordered;
    limited = All-Reordered _ (Reordered-sym same) (
        All-map (Allows (least_stack ordered)) _
          (λ c h maximum e.
            let bound =
              AtMost-default (least_stack ordered) (length ordered) maximum (h maximum e) in
            let most = stack-limit limit 0 ordered (omega arith) in omega arith)
          ordered (least_stack-Allows ordered));
    passed_over = All-map (Passed limit (length selected)) _ full parts.0 parts.3;
  },
)
  where
    ordered : List Candidate
    ordered = sort_by precedes cs

    limit : ℕ
    limit = get_or_else (least_stack ordered) (length ordered)

    selected : List Candidate
    selected = (stack limit 0 ordered).0

    same : Reordered cs ordered
    same = Reordered-sort_by precedes cs

    parts : Parts limit (length selected) ordered (stack limit 0 ordered)
    parts = stack-Parts limit 0 (length selected) ordered (omega arith)

    full :
        (c : Candidate)
        → Passed limit (length selected) c
        → ((c.promotion.stackable ≡ false) × (1 ≤ length selected)) ⊎ IsFull cs (length selected)
    full c (inl passed) = inl passed
    full c (inr k) = inr λ n small allowed.
        let size = length-Reordered same in
        let least =
          least_stack-least ordered (length ordered) n (omega arith)
            (All-Reordered _ same allowed) in
        omega arith
