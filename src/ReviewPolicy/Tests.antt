-- ===== src/ReviewPolicy/Tests.antt =====
-- src/otaman_core/review_policy.py: a program's own policy.
use otaman_core.Prelude.{[], ◌∷◌, ok, ◌≡◌, refl}
use otaman_core.Yaml.{Value, str, list, dict, nil, cons, end, entry}
use otaman_core.ReviewPolicy.{program, ReviewPolicy, stray, parse_block, parse_review_policy}

abbrev block : Value
block = dict (entry (str "auto-triage") (list (cons (str "info") nil)) end)

abbrev policy : ReviewPolicy
policy = record { must_see = []; collapsed = "info" ∷ []; source = program }

-- A program that collapses one kind.
parsed : parse_review_policy block ≡ ok policy
unfolding parse_review_policy parse_block stray
parsed = refl
