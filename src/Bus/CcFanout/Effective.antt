-- ===== src/Bus/CcFanout/Effective.antt =====
-- Who is in the effective CC list.
use otaman_core.Prelude.{
  String, not, ◌&&◌, ◌||◌, Option, List, [], ◌∷◌, ◌++◌, str_eq, elem, NoRepeats, ◌≡◌, refl, arith,
  eq_iff, elem-sorted_set, eq_refl, any, ◌∙◌, sorted_set,
}
use otaman_core.Yaml.{Entries}
use otaman_core.Bus.CcFanout.{
  rule_matches, rule_cc, evaluate_routing_rules, collect, explicit_names, compute_effective_cc,
}

elem-append : (a : String) (xs ys : List String) → elem a (xs ++ ys) ≡ (elem a xs || elem a ys)
elem-append a [] ys = refl
elem-append a (x ∷ xs) ys = ground (arith, elem-append a xs ys)

elem-collect :
    (a to : String) (seen names : List String)
    → elem a (collect to seen names) ≡ (not (str_eq a to) && (not (elem a seen) && elem a names))
unfolding collect
elem-collect a to seen [] = ground arith
elem-collect a to seen (x ∷ names) = ground (
  arith,
  eq_iff a x,
  eq_iff a to,
  eq_iff x to,
  elem-collect a to seen names,
  elem-collect a to (x ∷ seen) names,
)

collect-NoRepeats : (to : String) (seen names : List String) → NoRepeats (collect to seen names)
unfolding collect
collect-NoRepeats to seen [] = tt
collect-NoRepeats to seen (x ∷ names) = ground (
  arith,
  eq_refl x,
  collect-NoRepeats to seen names,
  collect-NoRepeats to (x ∷ seen) names,
  elem-collect x to (x ∷ seen) names,
)

-- A name is in the effective CC exactly when it is not the primary recipient and is an explicit
-- name or one that the routing rules give. No name stands twice in the list.
pub compute_effective_cc-members :
    (to priority : String) (explicit_cc : List String) (rules : List Entries)
    (msg_type : Option String)
    → ((a : String)
        → elem a (compute_effective_cc to priority explicit_cc rules msg_type) ≡ (
            not (str_eq a to)
            && (elem a (explicit_names explicit_cc)
                || elem a (evaluate_routing_rules rules to priority msg_type))))
      × NoRepeats (compute_effective_cc to priority explicit_cc rules msg_type)
unfolding compute_effective_cc
compute_effective_cc-members to priority explicit_cc rules msg_type =
    let derived = evaluate_routing_rules rules to priority msg_type in
    let candidates = explicit_names explicit_cc ++ sorted_set derived in
    (
      λ a.
          elem-collect a to [] candidates
          ∙ rw (elem-append a (explicit_names explicit_cc) (sorted_set derived))
              (rw (elem-sorted_set a derived) (refl)),
      collect-NoRepeats to [] candidates,
    )

-- Every rule that matches contributes its names, whatever the other rules are and in any order.
pub evaluate_routing_rules-union :
    (rules : List Entries) (to priority : String) (msg_type : Option String) (a : String)
    → elem a (evaluate_routing_rules rules to priority msg_type)
      ≡ any (λ r. rule_matches r to priority msg_type && elem a (rule_cc r)) rules
unfolding evaluate_routing_rules
evaluate_routing_rules-union [] to priority msg_type a = refl
evaluate_routing_rules-union (r ∷ rules) to priority msg_type a = ground (
  arith,
  elem-append a (rule_cc r) (evaluate_routing_rules rules to priority msg_type),
  evaluate_routing_rules-union rules to priority msg_type a,
)
