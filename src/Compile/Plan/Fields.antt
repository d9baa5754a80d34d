-- ===== src/Compile/Plan/Fields.antt =====
-- The fields of a compiled plan that lookups read, which no action changes.
use mathlib.Core.Path.{subst}
use proxy.Common.{◌≡◌, refl, ℕ, Bool, Option}
use proxy.Ir.{HostnameMatch, RequestMatch, Action, Rule}
use proxy.Compile.Types.{CompiledPlan, ok}
use proxy.Compile.Plan.{apply_action, bare_plan, compile_plan}

pub record KeepsFields (rule : Rule) (precedence : ℕ) (m : RequestMatch) (plan : CompiledPlan)
    : Type 0 where
  pub matches_eq : plan.matches ≡ m
  pub precedence_eq : plan.precedence ≡ precedence
  pub rule_order_eq : plan.rule_order ≡ rule.rule_order

apply_action-KeepsFields :
    (action : Action) (rule : Rule) (precedence : ℕ) (m : RequestMatch) (g d : Bool)
    (l : Option HostnameMatch)
    → KeepsFields rule precedence m (apply_action action (bare_plan rule precedence m g d l))
unfolding apply_action
apply_action-KeepsFields (Action.route a) rule precedence m g d l = record {
  matches_eq = refl;
  precedence_eq = refl;
  rule_order_eq = refl;
}
apply_action-KeepsFields (Action.redirect a) rule precedence m g d l = record {
  matches_eq = refl;
  precedence_eq = refl;
  rule_order_eq = refl;
}
apply_action-KeepsFields (Action.static_files a) rule precedence m g d l = record {
  matches_eq = refl;
  precedence_eq = refl;
  rule_order_eq = refl;
}
apply_action-KeepsFields (Action.fixed_response a) rule precedence m g d l = record {
  matches_eq = refl;
  precedence_eq = refl;
  rule_order_eq = refl;
}

ok-injective : {a b : CompiledPlan} → ok a ≡ ok b → a ≡ b
ok-injective e = cc

pub compile_plan-KeepsFields :
    (rule : Rule) (precedence : ℕ) (m : RequestMatch) (g d : Bool) (l : Option HostnameMatch)
    (plan : CompiledPlan)
    → compile_plan rule precedence m g d l ≡ ok plan
    → KeepsFields rule precedence m plan
unfolding compile_plan
compile_plan-KeepsFields rule precedence m g d l plan e =
    subst (λ q. KeepsFields rule precedence m q) (ok-injective e)
      (apply_action-KeepsFields rule.action rule precedence m g d l)
