-- ===== src/Rules/Order.antt =====
-- types.go: rule sets. A set holds its rules by value, and time comes as an argument.
pub mod Sorted
use gki_pass.Base.{
  Bool, List, Option, String, [], false, if◌then◌else◌, length, none, some, suc, true, zero, ℕ, ◌%◌,
  ◌++◌, ◌+◌, ◌-◌, ◌^◌, ◌∷◌,
}
use gki_pass.Base.Maps.{nat_eq, string_eq}
use gki_pass.Base.Int.{int_eq, ltb_ℤ}
use gki_pass.Rules.{Rule, is_valid}
use mathlib.Core.Option
use gki_pass.Base.Elements.{filter}

pub record RuleSet : Type 0 where
  pub id : String
  pub name : String
  pub description : String
  pub rules : List Rule
  pub version : ℕ
  pub created_at : ℕ
  pub updated_at : ℕ

-- `NewRuleSet`
unfoldable pub new_rule_set : String → String → ℕ → RuleSet
new_rule_set id name now = record {
  id = id;
  name = name;
  description = "";
  rules = [];
  version = 1;
  created_at = now;
  updated_at = now;
}

-- `RuleSet.AddRule`
unfoldable pub add_rule : Rule → ℕ → RuleSet → RuleSet
add_rule rule now s = record s {
  rules = s.rules ++ (rule ∷ []);
  version = (s.version + 1) % 2 ^ 64;
  updated_at = now;
}

-- The first rule with the name goes.
unfoldable pub without : String → List Rule → Option (List Rule)
without id [] = none
without id (rule ∷ rules) =
    let rest = without id rules in
    if string_eq.beq rule.id id then some rules else Option.map (λ kept. rule ∷ kept) rest

-- `RuleSet.RemoveRule`
unfoldable pub remove_rule : String → ℕ → RuleSet → RuleSet × Bool
remove_rule id now s = elim (without id s.rules) [
  | none ↦ (s, false)
  | some rules ↦
      (record s { rules = rules; version = (s.version + 1) % 2 ^ 64; updated_at = now }, true)
]

unfoldable pub find_rule : String → List Rule → Option Rule
find_rule id [] = none
find_rule id (rule ∷ rules) = if string_eq.beq rule.id id then some rule else find_rule id rules

-- `RuleSet.GetRule`
unfoldable pub get_rule : String → RuleSet → Option Rule
get_rule id s = find_rule id s.rules

-- The inner loop of `SortByPriority`, with the comparisons that are left, from a place on.
unfoldable pub bubble : ℕ → List Rule → List Rule
bubble (suc left) (a ∷ b ∷ rules) =
    let swap = ltb_ℤ a.priority b.priority in
    (if swap then b else a) ∷ bubble left ((if swap then a else b) ∷ rules)
bubble _ rules = rules

-- The outer loop: the rounds that are left are the comparisons of the next one.
unfoldable pub bubble_rounds : ℕ → List Rule → List Rule
bubble_rounds zero rules = rules
bubble_rounds (suc left) rules = bubble_rounds left (bubble (suc left) rules)

-- `RuleSet.SortByPriority`
unfoldable pub sort_by_priority : RuleSet → RuleSet
sort_by_priority s = record s { rules = bubble_rounds (length s.rules - 1) s.rules }

-- `RuleSet.GetActiveRules`
unfoldable pub get_active_rules : ℕ → RuleSet → List Rule
get_active_rules now s = filter (λ rule. is_valid rule now) s.rules
