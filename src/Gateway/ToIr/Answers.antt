-- ===== src/Gateway/ToIr/Answers.antt =====
-- What a plan that a rule of a route compiles to does.
use mathlib.Core.List.{Memᴰ}
use mathlib.Core.Option
use mathlib.Core.Path.{subst}
use proxy.Common.{
  singleton_sound, ℕ, ◌≡◌, refl, ap, ◌∙◌, inl, inr, Bool, true, false, not, ◌&&◌, Option, none,
  some, List, [], ◌∷◌, if◌then◌else◌, arith, Bool-cases, get_elem?,
}
use proxy.Common.Text.{Str}
use proxy.Ir
use proxy.Compile.Types.{CompiledPlan, UpstreamAction}
use proxy.Compile.Plan.{compile_plan}
use proxy.Compile.Request.{Regex, Headers, request_matches}
use proxy.Compile.Host.Plans.{IsPlanOf}
use proxy.Compile.Host.Candidates.{PathFits}
use proxy.Gateway.Http.{unprogrammed_rule}
use proxy.Gateway.ToIr.Translation.{
  Translation, IsTranslation, unprogrammed_stages, redirect_stages,
}
use proxy.Gateway.ToIr.Rules.{rule_of, IsRuleOf}

module _ {A : Type 0} (t : Translation A) where
  -- A rule forwards requests if it is programmed and does not redirect them.
  abbrev pub forwards : A → Bool
  forwards rule = t.programmed rule && not (t.redirects rule)

  -- What a plan does for a request that a rule of a route answers.
  pub record IsAnswer (re : Regex) (path method : Str) (headers : Headers) (query : Option Str)
      (rules : List A) (plan : CompiledPlan) : Type 0 where
    pub index : ℕ
    pub rule : A
    pub found : get_elem? rules index ≡ some rule
    pub m : Ir.RequestMatch
    pub of_rule : Memᴰ m (t.matches rule)
    pub path_fits : PathFits re m.path path
    pub accepts : request_matches re method headers query m ≡ true
    pub order : plan.rule_order ≡ index
    pub backends :
        Option.map (λ (u : UpstreamAction). u.backends) plan.upstream
        ≡ (if forwards rule then some (t.backends rule) else none)
    pub stages :
        plan.request_stages
        ≡ (if t.programmed rule then redirect_stages (t.redirect rule m) else unprogrammed_stages)
    pub cert_of : plan.client_cert_id ≡ (if forwards rule then t.client_cert_id else none)

if-matches :
    (b : Bool) (x y : Ir.Rule) (m : Ir.RequestMatch)
    → x.matches ≡ m ∷ []
    → y.matches ≡ m ∷ []
    → (if b then x else y).matches ≡ m ∷ []
if-matches true x y m p q = p
if-matches false x y m p q = q

unprogrammed-plan :
    (h : Ir.HostRoute) (index : ℕ) (m : Ir.RequestMatch) (plan : CompiledPlan)
    → IsPlanOf h (unprogrammed_rule index m) m plan
    → (plan.upstream ≡ none)
      × (plan.request_stages ≡ unprogrammed_stages)
      × (plan.client_cert_id ≡ none)
      × (plan.rule_order ≡ index)
unfolding compile_plan
unprogrammed-plan h index m plan e = ground (arith, e)

module _ {A : Type 0} (t : Translation A) (is_translation : IsTranslation t) (h : Ir.HostRoute)
    (plan : CompiledPlan) where
  plan_of :
      (rule : A) (m : Ir.RequestMatch) (index : ℕ)
      → IsPlanOf h (rule_of t rule index m) m plan
      → (Option.map (λ (u : UpstreamAction). u.backends) plan.upstream
          ≡ (if forwards t rule then some (t.backends rule) else none))
        × (plan.request_stages ≡ (
            if t.programmed rule then redirect_stages (t.redirect rule m) else unprogrammed_stages))
        × (plan.client_cert_id ≡ (if forwards t rule then t.client_cert_id else none))
        × (plan.rule_order ≡ index)
  plan_of rule m index e = elim (Bool-cases (t.programmed rule)) [
    | inl on ↦
        let k = is_translation.plan_to h rule m index plan (
          subst
            (λ b. IsPlanOf h (if b then t.build rule m index else unprogrammed_rule index m) m plan)
            on e) in
        (
          ground (arith, on, k.goes_to),
          ground (arith, on, k.stages),
          ground (arith, on, k.cert_of),
          k.order,
        )
    | inr off ↦
        let (b, st, c, o) = unprogrammed-plan h index m plan (
          subst
            (λ b. IsPlanOf h (if b then t.build rule m index else unprogrammed_rule index m) m plan)
            off e) in
        (ground (arith, off, b), ground (arith, off, st), ground (arith, off, c), o)
  ]

  -- The plan of a match of a rule is the answer of the rule, to a request that the match accepts.
  pub IsRuleOf-IsAnswer :
      (re : Regex) (path method : Str) (headers : Headers) (query : Option Str) (x : Ir.Rule)
      (m : Ir.RequestMatch) (rules : List A)
      → Memᴰ m x.matches
      → IsPlanOf h x m plan
      → PathFits re m.path path
      → request_matches re method headers query m ≡ true
      → IsRuleOf t rules x
      → IsAnswer t re path method headers query rules plan
  IsRuleOf-IsAnswer re path method headers query x m rules mm is fits accepts k =
      let s : m ≡ k.m = singleton_sound (
        subst (λ l. Memᴰ m l)
          (ap (λ (y : Ir.Rule). y.matches) k.made
            ∙ if-matches (t.programmed k.rule) (t.build k.rule k.m k.index)
                (unprogrammed_rule k.index k.m) k.m (is_translation.single k.rule k.m k.index) refl)
          mm) in
      let is' : IsPlanOf h (rule_of t k.rule k.index k.m) k.m plan =
        subst (λ q. IsPlanOf h (rule_of t k.rule k.index k.m) q plan) s
          (subst (λ y. IsPlanOf h y m plan) k.made is) in
      let (b, st, c, o) = plan_of k.rule k.m k.index is' in
      record {
        index = k.index;
        rule = k.rule;
        found = k.found;
        m = k.m;
        of_rule = k.of_rule;
        path_fits = subst (λ (q : Ir.RequestMatch). PathFits re q.path path) s fits;
        accepts = subst (λ q. request_matches re method headers query q ≡ true) s accepts;
        order = o;
        backends = b;
        stages = st;
        cert_of = c;
      }
