-- ===== src/Compile/Host/Plans.antt =====
-- The plans of a host: one for each match of each rule, told apart by their addresses.
use mathlib.Core.List.{Memᴰ}
use mathlib.Core.List.Memᴰ
use mathlib.Core.Path.{subst}
use proxy.Common.{
  ℕ, suc, ◌+◌, ◌≤◌, ◌≡◌, refl, sym, ap, ◌∙◌, inl, inr, List, [], ◌∷◌, ◌++◌, length, arith,
  Memᴰ-append, Memᴰ-append_left, Memᴰ-append_right,
}
use proxy.Ir.{RequestMatch, Rule, HostRoute}
use proxy.Compile.Types.{CompiledPlan, ArcPlan, ok}
use proxy.Compile.Plan.{compile_plan, compute_precedence}
use proxy.Compile.Host.{compile_matches, compile_rules, compile_plans}

-- The plans stand at consecutive addresses.
abbrev IsNumbered : ℕ → List ArcPlan → Type 0
IsNumbered n [] = Unit
IsNumbered n (p ∷ plans) = (p.as_ptr ≡ n) × IsNumbered (suc n) plans

-- The plan that a rule and one of its matches compile to.
abbrev pub IsPlanOf : HostRoute → Rule → RequestMatch → CompiledPlan → Type 0
IsPlanOf host rule m plan =
    compile_plan rule (compute_precedence rule) m host.gateway_api host.disable_secure_redirection
      host.listener_hostname
    ≡ ok plan

IsNumbered-append :
    (n : ℕ) (xs ys : List ArcPlan)
    → IsNumbered n xs
    → IsNumbered (n + length xs) ys
    → IsNumbered n (xs ++ ys)
IsNumbered-append n [] ys h k = let e : n + 0 ≡ n = omega arith in subst (λ c. IsNumbered c ys) e k
IsNumbered-append n (x ∷ xs) ys (here, h) k =
    let e : n + suc (length xs) ≡ suc n + length xs = omega arith in
    (here, IsNumbered-append (suc n) xs ys h (subst (λ c. IsNumbered c ys) e k))

IsNumbered-ge :
    (n : ℕ) (xs : List ArcPlan) (p : ArcPlan) → IsNumbered n xs → Memᴰ p xs → n ≤ p.as_ptr
IsNumbered-ge n [] p h m = elim m [ ]
IsNumbered-ge n (x ∷ xs) p (here, h) (Memᴰ.head e) = omega (arith, ap (λ (q : ArcPlan). q.as_ptr) e)
IsNumbered-ge n (x ∷ xs) p (here, h) (Memᴰ.tail m) = omega (arith, IsNumbered-ge (suc n) xs p h m)

-- Numbered plans with one address are one plan.
IsNumbered-injective :
    (n : ℕ) (xs : List ArcPlan) (p q : ArcPlan)
    → IsNumbered n xs
    → Memᴰ p xs
    → Memᴰ q xs
    → p.as_ptr ≡ q.as_ptr
    → p ≡ q
IsNumbered-injective n [] p q h mp mq e = elim mp [ ]
IsNumbered-injective n (x ∷ xs) p q h (Memᴰ.head a) (Memᴰ.head b) e = a ∙ sym b
IsNumbered-injective n (x ∷ xs) p q (here, h) (Memᴰ.head a) (Memᴰ.tail b) e =
    absurd (omega (arith, ap (λ (r : ArcPlan). r.as_ptr) a, IsNumbered-ge (suc n) xs q h b))
IsNumbered-injective n (x ∷ xs) p q (here, h) (Memᴰ.tail a) (Memᴰ.head b) e =
    absurd (omega (arith, ap (λ (r : ArcPlan). r.as_ptr) b, IsNumbered-ge (suc n) xs p h a))
IsNumbered-injective n (x ∷ xs) p q (here, h) (Memᴰ.tail a) (Memᴰ.tail b) e =
    IsNumbered-injective (suc n) xs p q h a b e

ok-injective : {xs ys : List ArcPlan} → ok xs ≡ ok ys → xs ≡ ys
ok-injective e = cc

module _ (host : HostRoute) where
  -- What the loop over a rule's matches gives.
  record IsMatchPlans (rule : Rule) (n : ℕ) (ms : List RequestMatch) (plans : List ArcPlan)
      : Type 0 where
    numbered : IsNumbered n plans
    sound :
        (p : ArcPlan) → Memᴰ p plans → (m : RequestMatch) × Memᴰ m ms × IsPlanOf host rule m p.plan
    complete :
        (m : RequestMatch) → Memᴰ m ms → (p : ArcPlan) × Memᴰ p plans × IsPlanOf host rule m p.plan

  plan_total : (rule : Rule) (m : RequestMatch) → (plan : CompiledPlan) × IsPlanOf host rule m plan
  unfolding compile_plan
  plan_total rule m = (_, refl)

  matches_lem :
      (rule : Rule) (n : ℕ) (ms : List RequestMatch)
      → (plans : List ArcPlan) × (compile_matches host rule (compute_precedence rule) n ms
          ≡ ok plans)
        × IsMatchPlans rule n ms plans
  unfolding compile_matches
  matches_lem rule n [] =
      ([], refl, record { numbered = tt; sound = λ p h. elim h [ ]; complete = λ m h. elim h [ ] })
  matches_lem rule n (m ∷ ms) =
      let (plan, e) = plan_total rule m in
      let (rest, er, k) = matches_lem rule (suc n) ms in
      let first : ArcPlan = record { as_ptr = n; plan = plan } in
      (
        first ∷ rest,
        rw (e, er),
        record {
          numbered = (refl, k.numbered);
          sound = λ p h. elim (Memᴰ.cases_cons h) [
            | inl s ↦
                (m, Memᴰ.head refl, subst (λ (q : ArcPlan). IsPlanOf host rule m q.plan) (sym s) e)
            | inr t ↦ let (m', at, is) = k.sound p t in (m', Memᴰ.tail at, is)
          ];
          complete = λ m' h. elim (Memᴰ.cases_cons h) [
            | inl s ↦ (first, Memᴰ.head refl, subst (λ y. IsPlanOf host rule y plan) (sym s) e)
            | inr t ↦ let (p, at, is) = k.complete m' t in (p, Memᴰ.tail at, is)
          ];
        },
      )

  -- What the loop over the rules gives: the plans of every match of every rule, and no others.
  pub record ArePlans (n : ℕ) (rules : List Rule) (plans : List ArcPlan) : Type 0 where
    pub numbered : IsNumbered n plans
    pub sound :
        (p : ArcPlan)
        → Memᴰ p plans
        → (rule : Rule) × Memᴰ rule rules
          × (m : RequestMatch) × Memᴰ m rule.matches
          × IsPlanOf host rule m p.plan
    pub complete :
        (rule : Rule) (m : RequestMatch)
        → Memᴰ rule rules
        → Memᴰ m rule.matches
        → (p : ArcPlan) × Memᴰ p plans × IsPlanOf host rule m p.plan

  rules_lem :
      (n : ℕ) (rules : List Rule)
      → (plans : List ArcPlan) × (compile_rules host n rules ≡ ok plans) × ArePlans n rules plans
  unfolding compile_rules
  rules_lem n [] = (
    [],
    refl,
    record { numbered = tt; sound = λ p h. elim h [ ]; complete = λ rule m h k. elim h [ ] },
  )
  rules_lem n (rule ∷ rules) =
      let (xs, ex, kx) = matches_lem rule n rule.matches in
      let (ys, ey, ky) = rules_lem (n + length xs) rules in
      (
        xs ++ ys,
        rw (ex, ey),
        record {
          numbered = IsNumbered-append n xs ys kx.numbered ky.numbered;
          sound = λ p h. elim (Memᴰ-append xs ys h) [
            | inl s ↦ let (m, at, is) = kx.sound p s in (rule, Memᴰ.head refl, m, at, is)
            | inr t ↦ let (r, ar, m, at, is) = ky.sound p t in (r, Memᴰ.tail ar, m, at, is)
          ];
          complete = λ r m h k. elim (Memᴰ.cases_cons h) [
            | inl s ↦
                let (p, at, is) = kx.complete m (subst (λ (q : Rule). Memᴰ m q.matches) s k) in
                (p, Memᴰ-append_left xs ys at, subst (λ q. IsPlanOf host q m p.plan) (sym s) is)
            | inr t ↦ let (p, at, is) = ky.complete r m t k in (p, Memᴰ-append_right xs ys at, is)
          ];
        },
      )

  -- Compiling the rules never fails.
  pub compile_plans_total :
      (plans : List ArcPlan) × (compile_plans host ≡ ok plans) × ArePlans 0 host.rules plans
  unfolding compile_plans
  compile_plans_total = rules_lem 0 host.rules

  pub compile_plans-ArePlans :
      (plans : List ArcPlan) → compile_plans host ≡ ok plans → ArePlans 0 host.rules plans
  compile_plans-ArePlans plans e =
      let (found, e', k) = compile_plans_total in
      subst (ArePlans 0 host.rules) (ok-injective (sym e' ∙ e)) k

  -- Two plans of a host at one address are one plan.
  pub as_ptr-injective :
      (plans : List ArcPlan) (p q : ArcPlan)
      → compile_plans host ≡ ok plans
      → Memᴰ p plans
      → Memᴰ q plans
      → p.as_ptr ≡ q.as_ptr
      → p ≡ q
  as_ptr-injective plans p q e =
      IsNumbered-injective 0 plans p q (compile_plans-ArePlans plans e).numbered
