-- ===== src/Cooldown/Laws.antt =====
-- The bounds of the escalating cooldown.
use pr_review_bot.Prelude.{
  if_cases, ℕ, ◌≤◌, ◌<◌, min, ◌≡◌, refl, ◌⊎◌, inl, inr, true, false, Option, none, some, List, [],
  ◌∷◌, arith, Bool-cases, Option-cases, ltb, ◌≢◌, sym, ap, ◌∙◌,
}
use mathlib.Core.Path.{subst}
use mathlib.Core.Option.{none-ne-some, some-injective}
use pr_review_bot.Number.{Number}
use pr_review_bot.Status.{pending, deferred}
use pr_review_bot.Problem.{check_bound-eq-nil, append-eq-nil, check_order}
use pr_review_bot.Cooldown.{
  CooldownCache, cooldown_problems, escalated, effective_cooldown, due_after_cooldown,
  max_cooldown_level, next_cooldown_level, max_f, min_f, positive,
}

nil_or_not : {A : Type 0} (xs : List A) → (xs ≡ []) ⊎ (xs ≢ [])
nil_or_not [] = inl refl
nil_or_not (x ∷ xs) = inr (λ e. cc)

module _ (N : Number) where
  open N use {F, le, zero_f, one_f, mul, pow, after}

  -- The triple is present and in range.
  pub record IsUsable (c : CooldownCache F) (base cap factor : F) : Type 0 where
    pub has_base : c.base ≡ some base
    pub has_cap : c.cap ≡ some cap
    pub has_factor : c.factor ≡ some factor
    pub base_nonneg : le zero_f base ≡ true
    pub cap_pos : le cap zero_f ≡ false
    pub factor_ge_one : le one_f factor ≡ true
    pub ordered : le base cap ≡ true

  max_f-ge-left : (a b : F) → le a (max_f N a b) ≡ true
  max_f-ge-left a b = ground (arith, N.le_refl a, N.le_total a b)

  max_f-le : (a b c : F) → le a c ≡ true → le b c ≡ true → le (max_f N a b) c ≡ true
  max_f-le a b c h k = ground arith

  pub min_f-le-right : (a b : F) → le (min_f N a b) b ≡ true
  min_f-le-right a b = ground (arith, N.le_refl b)

  max_f_mono : (a b c : F) → le b c ≡ true → le (max_f N a b) (max_f N a c) ≡ true
  max_f_mono a b c h = ground (arith, N.le_refl a, N.le_refl c, N.le_total a c, N.le_trans b c a)

  pub min_f_mono : (a b c : F) → le a b ≡ true → le (min_f N a c) (min_f N b c) ≡ true
  min_f_mono a b c h = ground (arith, N.le_refl c, N.le_total a c, N.le_trans a b c)

  -- `problems` finds nothing exactly in a usable triple.
  pub cooldown_problems-eq-nil :
      (c : CooldownCache F)
      → cooldown_problems N c ≡ []
      → (base : F) × (cap : F) × (factor : F) × IsUsable c base cap factor
  unfolding cooldown_problems
  cooldown_problems-eq-nil c h =
      let (h1, r1) = append-eq-nil _ _ h in
      let (h2, r2) = append-eq-nil _ _ r1 in
      let (h3, h4) = append-eq-nil _ _ r2 in
      let (b, eb, pb) = check_bound-eq-nil "cooldown_base_seconds" (le zero_f) c.base h1 in
      let (m, em, pm) = check_bound-eq-nil "cooldown_max_seconds" (positive N) c.cap h2 in
      let (f, ef, pf) = check_bound-eq-nil "cooldown_factor" (le one_f) c.factor h3 in
      (
        b,
        m,
        f,
        record {
          has_base = eb;
          has_cap = em;
          has_factor = ef;
          base_nonneg = pb;
          cap_pos = ground arith;
          factor_ge_one = pf;
          ordered = ordered_of b m (rw (eb, em) at h4);
        },
      )
    where
      ordered_of : (b m : F) → check_order le (some b) (some m) ≡ [] → le b m ≡ true
      ordered_of b m h = ground arith

  pub cooldown_problems_usable :
      (c : CooldownCache F) {base cap factor : F}
      → IsUsable c base cap factor
      → cooldown_problems N c ≡ []
  unfolding cooldown_problems
  cooldown_problems_usable c u = ground arith

  -- The wait of a usable triple at each level.
  pub effective_cooldown_usable :
      (c : CooldownCache F) (level : ℕ) {base cap factor : F}
      → IsUsable c base cap factor
      → effective_cooldown N c level ≡ escalated N base cap factor level
  unfolding effective_cooldown
  effective_cooldown_usable c level u = ground (arith, cooldown_problems_usable c u)

  -- The power that a wait was computed from.
  escalated-some :
      (b m f : F) (level : ℕ) {w : F}
      → escalated N b m f level ≡ some w
      → (p : F) × (pow f (min level max_cooldown_level) ≡ some p)
        × (max_f N b (min_f N (mul b p) m) ≡ w)
  unfolding escalated
  escalated-some b m f level {w} h = of_power (pow f (min level max_cooldown_level)) refl h
    where
      of_power :
          (o : Option F)
          → pow f (min level max_cooldown_level) ≡ o
          → (elim o [ none ↦ none | some p ↦ some (max_f N b (min_f N (mul b p) m)) ]) ≡ some w
          → (p : F) × (pow f (min level max_cooldown_level) ≡ some p)
            × (max_f N b (min_f N (mul b p) m) ≡ w)
      of_power none e k = absurd (none-ne-some w k)
      of_power (some p) e k = (p, e, some-injective _ w k)

  escalated-ge-base :
      (b m f : F) (level : ℕ) {w : F} → escalated N b m f level ≡ some w → le b w ≡ true
  escalated-ge-base b m f level h =
      let (p, e, k) = escalated-some b m f level h in
      subst (λ x. le b x ≡ true) k (max_f-ge-left b (min_f N (mul b p) m))

  escalated-le-cap :
      (b m f : F) (level : ℕ) {w : F}
      → le b m ≡ true
      → escalated N b m f level ≡ some w
      → le w m ≡ true
  escalated-le-cap b m f level h g =
      let (p, e, k) = escalated-some b m f level g in
      subst (λ x. le x m ≡ true) k (max_f-le b _ m h (min_f-le-right (mul b p) m))

  -- A longer run of rapid re-reviews never waits less; from level 30 on the wait is constant.
  escalated_mono :
      (b m f : F) (i j : ℕ) {v w : F}
      → le zero_f b ≡ true
      → le one_f f ≡ true
      → i ≤ j
      → escalated N b m f i ≡ some v
      → escalated N b m f j ≡ some w
      → le v w ≡ true
  escalated_mono b m f i j {v} {w} hb hf h g k =
      let (p, e1, k1) = escalated-some b m f i g in
      let (q, e2, k2) = escalated-some b m f j k in
      subst (λ x. le x w ≡ true) k1
        (subst (λ y. le (max_f N b (min_f N (mul b p) m)) y ≡ true) k2
          (max_f_mono b _ _ (
            min_f_mono _ _ m (
              N.mul_mono b p q hb (
                N.pow_mono f (min i max_cooldown_level) (min j max_cooldown_level) hf (omega arith)
                  e1 e2)))))

  -- Level 0 waits the base.
  escalated-zero : (b m f : F) → le b m ≡ true → escalated N b m f 0 ≡ some b
  unfolding escalated
  escalated-zero b m f h =
      rw (escalated, N.pow_zero f) (ap some (ground (arith, N.mul_one b, N.le_refl b)))

  unusable_raises :
      (c : CooldownCache F) (level : ℕ)
      → cooldown_problems N c ≢ []
      → effective_cooldown N c level ≡ none
  unfolding effective_cooldown
  unusable_raises c level h = ground arith

  -- The product, or the maximum where the product is above it, or the base where one of them is not
  -- above it.
  abbrev pub IsClamped : F → F → F → F → Type 0
  IsClamped base cap x w =
      (w ≡ x)
      ⊎ (((w ≡ cap) × (le x cap ≡ false))
          ⊎ ((w ≡ base) × ((le x base ≡ true) ⊎ (le cap base ≡ true))))

  -- The base times the factor to the level, at most 30, between the base and the maximum.
  abbrev pub IsEscalated : F → F → F → ℕ → F → Type 0
  IsEscalated base cap factor i w =
      (p : F) × (pow factor (min i max_cooldown_level) ≡ some p) × IsClamped base cap (mul base p) w

  clamp-IsClamped : (b m x : F) → IsClamped b m x (max_f N b (min_f N x m))
  clamp-IsClamped b m x =
      if_cases (λ y. IsClamped b m x (max_f N b y)) (le x m) x m
        (λ _.
          if_cases (IsClamped b m x) (le x b) b x (λ a. inr (inr (refl, inl a))) (λ _. inl refl))
        (λ h.
          if_cases (IsClamped b m x) (le m b) b m (λ a. inr (inr (refl, inr a)))
            (λ _. inr (inl (refl, h))))

  escalated-IsEscalated :
      (b m f : F) (i : ℕ) {w : F} → escalated N b m f i ≡ some w → IsEscalated b m f i w
  escalated-IsEscalated b m f i h =
      let (p, e, k) = escalated-some b m f i h in
      (p, e, subst (IsClamped b m (mul b p)) k (clamp-IsClamped b m (mul b p)))

  -- The wait of a level: none only where the power of the factor overflows, and else between the base
  -- and the maximum.
  abbrev pub IsWait : CooldownCache F → F → F → F → ℕ → Type 0
  IsWait c base cap factor i =
      ((pow factor (min i max_cooldown_level) ≡ none) × (effective_cooldown N c i ≡ none))
      ⊎ ((w : F) × (effective_cooldown N c i ≡ some w)
          × (le base w ≡ true)
          × (le w cap ≡ true)
          × IsEscalated base cap factor i w)

  usable-IsWait :
      (c : CooldownCache F) (i : ℕ) {base cap factor : F}
      → IsUsable c base cap factor
      → IsWait c base cap factor i
  unfolding escalated
  usable-IsWait c i {base = b} {cap = m} {factor = f} u =
      elim (Option-cases (pow f (min i max_cooldown_level))) [
        | inl n ↦ inl (n, effective_cooldown_usable c i u ∙ rw (escalated, n) refl)
        | inr (p, e) ↦
            let s : escalated N b m f i ≡ some (max_f N b (min_f N (mul b p) m)) =
              rw (escalated, e) refl in
            inr (
              max_f N b (min_f N (mul b p) m),
              effective_cooldown_usable c i u ∙ s,
              escalated-ge-base b m f i s,
              escalated-le-cap b m f i u.ordered s,
              escalated-IsEscalated b m f i s,
            )
      ]

  -- For a triple that `problems` accepts, level 0 waits the base, and each level waits the base times
  -- the factor to the level, at most 30, kept between the base and the maximum, unless the power of the factor overflows, where the computation raises. For any
  -- other triple it raises at every level.
  pub effective_cooldown_lem :
      (c : CooldownCache F)
      → ((base : F) × (cap : F) × (factor : F) × IsUsable c base cap factor
          × (effective_cooldown N c 0 ≡ some base)
          × ((i : ℕ) → IsWait c base cap factor i))
        ⊎ ((cooldown_problems N c ≢ []) × ((i : ℕ) → effective_cooldown N c i ≡ none))
  effective_cooldown_lem c = elim (nil_or_not (cooldown_problems N c)) [
    | inl e ↦
        let (b, m, f, u) = cooldown_problems-eq-nil c e in
        inl (
          b,
          m,
          f,
          u,
          effective_cooldown_usable c 0 u ∙ escalated-zero b m f u.ordered,
          λ i. usable-IsWait c i u,
        )
    | inr e ↦ inr (e, λ i. unusable_raises c i e)
  ]

  -- Where both waits exist, the one at the higher level is no shorter.
  pub effective_cooldown_mono :
      (c : CooldownCache F) (i j : ℕ) {v w : F}
      → i ≤ j
      → effective_cooldown N c i ≡ some v
      → effective_cooldown N c j ≡ some w
      → le v w ≡ true
  effective_cooldown_mono c i j {v} {w} h p q = elim (nil_or_not (cooldown_problems N c)) [
    | inl e ↦
        let (b, m, f, u) = cooldown_problems-eq-nil c e in
        escalated_mono b m f i j u.base_nonneg u.factor_ge_one h
          (sym (effective_cooldown_usable c i u) ∙ p) (sym (effective_cooldown_usable c j u) ∙ q)
    | inr e ↦ cc (p, unusable_raises c i e)
  ]

  -- What a push to a finished ticket leads to, for a usable triple and a level whose wait exists, which
  -- is the base times the factor to the level, at most 30, kept between the base and the maximum: due
  -- at once, with the escalation anew, where that wait since the last review is over; and otherwise
  -- deferred until the end of that wait, which is between the base and the maximum cooldown after the
  -- last review, and the level rises up to 30.
  pub due_after_cooldown_lem :
      (c : CooldownCache F) (last now level : ℕ) (w : F) {base cap factor : F}
      → IsUsable c base cap factor
      → effective_cooldown N c level ≡ some w
      → IsEscalated base cap factor level w
        × (((after last w ≤ now)
              × (due_after_cooldown N c (some last) now level ≡ some (pending, none, 0)))
            ⊎ ((now < after last w)
                × (due_after_cooldown N c (some last) now level
                    ≡ some (deferred, some (after last w), next_cooldown_level level))
                × (after last base ≤ after last w)
                × (after last w ≤ after last cap)))
  unfolding due_after_cooldown
  due_after_cooldown_lem c last now level w {base} {cap} {factor} u h =
      let s = sym (effective_cooldown_usable c level u) ∙ h in
      let low = N.after_mono last base w (escalated-ge-base base cap factor level s) in
      let high = N.after_mono last w cap (escalated-le-cap base cap factor level u.ordered s) in
      (
        escalated-IsEscalated base cap factor level s,
        elim (Bool-cases (ltb now (after last w))) [
          | inl soon ↦ inr (ground arith, rw (h, due_after_cooldown, soon) refl, low, high)
          | inr late ↦ inl (ground arith, rw (h, due_after_cooldown, late) refl)
        ],
      )
