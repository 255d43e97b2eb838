-- ===== src/Stores/Governing.antt =====
-- The rules that the code selects, and those that govern an instant.
use apparel_network.Prelude.{
  ℕ, ◌≡◌, ◌≤◌, refl, sym, ◌∙◌, ◌↔◌, ◌⊎◌, inl, inr, subst, Bool, true, false, not, List, [], ◌∷◌,
  ◌&&◌, ◌==◌, ==_iff, &&_split, Bool-cases, All, All-map, any, select, leb, if◌then◌else◌, arith,
}
use apparel_network.Prelude.Members.{
  Among, All-Among, All-each, Among-Reordered, Among-select, select-Among, any-Among, Among-any,
}
use apparel_network.Prelude.Sorting.{Reordered-sort_by, Reordered-sym}
use apparel_network.Tables.Hours.{StoreOperatingHours, is_temporary}
use apparel_network.Stores.Schedule.{
  effective, eligible, prefer, selected_pool, top_priority, opens_before, in_force,
}
use apparel_network.Stores.Status.{covers}
use apparel_network.Stores.Openness.{Speaks, Governs, IsOpen, covers-HasOpen, effective-InPeriod}

-- The rules of the day that are effective are those that speak.
Among-eligible :
    (day instant : ℕ) (rules : List StoreOperatingHours) (r : StoreOperatingHours)
    → Among r (eligible day instant rules) ↔ (Among r rules × Speaks day instant r)
unfolding eligible
Among-eligible day instant rules r = (
  λ m.
      let found = select-Among _ rules m in
      let tests = &&_split (r.day_of_week == day) (effective r instant) found.1 in
      (found.0, ((==_iff _ _).0 tests.0, (effective-InPeriod r instant).0 tests.1)),
  λ h.
      Among-select _ rules h.0
        (both _ _ ((==_iff _ _).1 h.1.0) ((effective-InPeriod r instant).1 h.1.1)),
)
  where
    both : (a b : Bool) → a ≡ true → b ≡ true → (a && b) ≡ true
    both a b h k = ground arith

-- The highest priority is one of the rules', and none is higher.
top_priority-le :
    (rules : List StoreOperatingHours) → All (λ r. r.priority ≤ top_priority rules) rules
unfolding top_priority
top_priority-le [] = tt
top_priority-le (r ∷ rules) = (
  first r.priority (top_priority rules),
  All-map _ _ (λ x h. later x.priority r.priority (top_priority rules) h) rules
      (top_priority-le rules),
)
  where
    first : (p q : ℕ) → p ≤ (if leb q p then p else q)
    first p q = ground arith

    later : (x p q : ℕ) → x ≤ q → x ≤ (if leb q p then p else q)
    later x p q h = ground arith

top_priority-least :
    (rules : List StoreOperatingHours) (n : ℕ)
    → All (λ r. r.priority ≤ n) rules
    → top_priority rules ≤ n
unfolding top_priority
top_priority-least [] n h = omega arith
top_priority-least (r ∷ rules) n h =
    both r.priority (top_priority rules) h.0 (top_priority-least rules n h.1)
  where
    both : (p q : ℕ) → p ≤ n → q ≤ n → (if leb q p then p else q) ≤ n
    both p q h k = ground arith

-- The pool is the temporary rules, or the permanent ones when there is no temporary one.
Among-selected_pool :
    (rules : List StoreOperatingHours) (r : StoreOperatingHours)
    → Among r (selected_pool rules)
      ↔ (Among r rules × ((is_temporary r ≡ true) ⊎ All (λ x. is_temporary x ≡ false) rules))
unfolding selected_pool
Among-selected_pool rules r = pool (select is_temporary rules) refl
  where
    not_true : (b : Bool) → not b ≡ true → b ≡ false
    not_true b h = ground arith

    is_false : (b : Bool) → b ≡ false → not b ≡ true
    is_false b h = ground arith

    none_among : select is_temporary rules ≡ [] → All (λ x. is_temporary x ≡ false) rules
    none_among e = All-each _ rules λ x m. elim (Bool-cases (is_temporary x)) [
      | inl t ↦ absurd (subst (Among x) e (Among-select is_temporary rules m t))
      | inr t ↦ t
    ]

    pool :
        (temporary : List StoreOperatingHours)
        → select is_temporary rules ≡ temporary
        → Among r (prefer temporary (select (λ x. not (is_temporary x)) rules))
          ↔ (Among r rules × ((is_temporary r ≡ true) ⊎ All (λ x. is_temporary x ≡ false) rules))
    pool [] e = (
      λ m.
          let found = select-Among (λ x. not (is_temporary x)) rules m in
          (found.0, inr (none_among e)),
      λ h.
          Among-select (λ x. not (is_temporary x)) rules h.0
            (is_false (is_temporary r)
              (All-Among (λ x. is_temporary x ≡ false) rules (none_among e) h.0)),
    )
    pool (x ∷ xs) e = (
      λ m.
          let found = select-Among is_temporary rules (subst (Among r) (sym e) m) in
          (found.0, inl found.1),
      λ h. subst (Among r) e (Among-select is_temporary rules h.0 (temporary h)),
    )
      where
        temporary :
            Among r rules × ((is_temporary r ≡ true) ⊎ All (λ y. is_temporary y ≡ false) rules)
            → is_temporary r ≡ true
        temporary (m, inl t) = t
        temporary (m, inr h) =
            let found = select-Among is_temporary rules (subst (Among x) (sym e) (inl refl)) in
            let no = All-Among (λ y. is_temporary y ≡ false) rules h found.0 in cc (no, found.1)

-- The kinds of the rules in the pool, when all its rules speak.
abbrev Kind : List StoreOperatingHours → StoreOperatingHours → Type 0
Kind rules r = (is_temporary r ≡ true) ⊎ All (λ x. is_temporary x ≡ false) rules

module _ (day instant : ℕ) (rules : List StoreOperatingHours) where
  speaking : List StoreOperatingHours
  speaking = eligible day instant rules

  pool_rules : List StoreOperatingHours
  pool_rules = selected_pool speaking

  in_force-Governs :
      (r : StoreOperatingHours) → Among r (in_force day instant rules) → Governs day instant rules r
  unfolding in_force pool_rules speaking
  in_force-Governs r m = record {
    listed = spoken.0;
    speaks = spoken.1;
    temporary_first = first kind;
    highest = All-each _ rules λ x among speaks alike.
        let pooled =
          (Among-selected_pool speaking x).1
            ((Among-eligible day instant rules x).1 (among, speaks), same_kind x alike kind) in
        let le = All-Among _ pool_rules (top_priority-le pool_rules) pooled in
        let top = (==_iff r.priority (top_priority pool_rules)).0 chosen.1 in omega arith;
  }
    where
      chosen : Among r pool_rules × ((r.priority == top_priority pool_rules) ≡ true)
      chosen =
          select-Among (λ x. x.priority == top_priority pool_rules) pool_rules
            (Among-Reordered r (Reordered-sym (Reordered-sort_by opens_before _)) m)

      in_pool : Among r speaking × Kind speaking r
      in_pool = (Among-selected_pool speaking r).0 chosen.0

      kind : Kind speaking r
      kind = in_pool.1

      spoken : Among r rules × Speaks day instant r
      spoken = (Among-eligible day instant rules r).0 in_pool.0

      first :
          Kind speaking r
          → (is_temporary r ≡ true) ⊎ All (λ x. Speaks day instant x → is_temporary x ≡ false) rules
      first (inl t) = inl t
      first (inr h) = inr (
          All-each _ rules λ x among speaks.
            All-Among (λ y. is_temporary y ≡ false) speaking h
              ((Among-eligible day instant rules x).1 (among, speaks)))

      same_kind :
          (x : StoreOperatingHours)
          → is_temporary x ≡ is_temporary r
          → Kind speaking r
          → Kind speaking x
      same_kind x alike (inl t) = inl (alike ∙ t)
      same_kind x alike (inr h) = inr h

  Governs-in_force :
      (r : StoreOperatingHours) → Governs day instant rules r → Among r (in_force day instant rules)
  unfolding in_force pool_rules speaking
  Governs-in_force r g = Among-Reordered r (Reordered-sort_by opens_before _) (
      Among-select (λ x. x.priority == top_priority pool_rules) pool_rules pooled
        ((==_iff _ _).1 top))
    where
      spoken : Among r speaking
      spoken = (Among-eligible day instant rules r).1 (g.listed, g.speaks)

      kind_of :
          (is_temporary r ≡ true) ⊎ All (λ x. Speaks day instant x → is_temporary x ≡ false) rules
          → Kind speaking r
      kind_of (inl t) = inl t
      kind_of (inr h) = inr (
          All-each _ speaking λ x among.
            let found = (Among-eligible day instant rules x).0 among in
            All-Among (λ y. Speaks day instant y → is_temporary y ≡ false) rules h found.0 found.1)

      kind : Kind speaking r
      kind = kind_of g.temporary_first

      pooled : Among r pool_rules
      pooled = (Among-selected_pool speaking r).1 (spoken, kind)

      alike :
          (x : StoreOperatingHours)
          → Among x speaking
          → Kind speaking x
          → Kind speaking r
          → is_temporary x ≡ is_temporary r
      alike x among (inl t) (inl u) = t ∙ sym u
      alike x among (inr h) (inl u) =
          let no = All-Among (λ y. is_temporary y ≡ false) speaking h spoken in cc (no, u)
      alike x among k (inr h) =
          All-Among (λ y. is_temporary y ≡ false) speaking h among
          ∙ sym (All-Among (λ y. is_temporary y ≡ false) speaking h spoken)

      top : r.priority ≡ top_priority pool_rules
      top =
          let above = All-Among _ pool_rules (top_priority-le pool_rules) pooled in
          let least = top_priority-least pool_rules r.priority (
            All-each _ pool_rules λ x among.
              let in_pool = (Among-selected_pool speaking x).0 among in
              let found = (Among-eligible day instant rules x).0 in_pool.0 in
              All-Among
                (λ y.
                  Speaks day instant y → is_temporary y ≡ is_temporary r → y.priority ≤ r.priority)
                rules g.highest found.0 found.1 (alike x in_pool.0 in_pool.1 kind)) in
          omega arith

  -- One of the rules in force covers the time just when the store is open by its rules.
  pub in_force-IsOpen :
      (time : ℕ)
      → (any (λ r. covers r time) (in_force day instant rules) ≡ true)
        ↔ IsOpen day instant time rules
  in_force-IsOpen time = (
    λ h.
        let found = any-Among (λ r. covers r time) (in_force day instant rules) h in
        (found.0, in_force-Governs found.0 found.1, (covers-HasOpen found.0 time).0 found.2),
    λ h.
        Among-any (λ r. covers r time) (in_force day instant rules) (Governs-in_force h.0 h.1)
          ((covers-HasOpen h.0 time).1 h.2),
  )
