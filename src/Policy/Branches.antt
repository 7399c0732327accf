-- ===== src/Policy/Branches.antt =====
-- `resolve_branch_owner` and `check_owner_less_branches` of policy.py.
use Prim.Native.String.{[] as nothing, ◌∷◌ as push}
use text.Mathlib.TextLemmas.{nil-append, cons-append}
use otaman_core.Prelude.{
  code, Char, String, Bool, true, false, not, ◌&&◌, Option, none, some, List, [], ◌∷◌, str_eq, ◌==◌,
  is_empty, all_chars, ◌+++◌, if◌then◌else◌, ◌≡◌, ◌≢◌, refl, arith, filled_test,
}

-- `s.partition("/")`: before the first slash and after it, if there is one
abbrev cons_before : Char → Option (String × String) → Option (String × String)
cons_before c none = none
cons_before c (some (a, b)) = some (push c a, b)

cut : String → Option (String × String)
cut nothing = none
cut (push c s) = let later = cons_before c (cut s) in if code c == b'/' then some ("", s) else later

-- `.+$`: at least one character, no newline but one at the very end
topic_rest : String → Bool
topic_rest nothing = true
topic_rest (push c s) = if code c == 10 then is_empty s else topic_rest s

is_topic : String → Bool
unfolding topic_rest
is_topic nothing = false
is_topic (push c s) = not (code c == 10) && topic_rest s

after_type : Option (String × String) → Option String
unfolding is_topic
after_type none = none
after_type (some (owner, topic)) =
    if not (is_empty owner) && is_topic topic then some owner else none

after_cut : Option (String × String) → Option String
unfolding after_type cut
after_cut none = none
after_cut (some (kind, rest)) = if is_empty kind then none else after_type (cut rest)

-- the owner group of `^[^/]+/(?P<owner>[^/]+)/.+$`
convention_owner : String → Option String
unfolding after_cut
convention_owner branch = after_cut (cut branch)

unfoldable pub registered : String → List (String × String) → Option String
registered branch [] = none
registered branch ((j, v) ∷ m) = if str_eq j branch then some v else registered branch m

-- `repo_owner` is used if it is there and not empty.
default_owner : Option String → Bool → Option String
default_owner none is_default = none
default_owner (some owner) is_default =
    if is_default && not (is_empty owner) then some owner else none

or_else : Option String → Option String → Option String
or_else none b = b
or_else (some a) b = some a

unfoldable pub resolve_branch_owner :
    String → Option String → Bool → List (String × String) → Option String
unfolding convention_owner default_owner or_else
resolve_branch_owner branch repo_owner is_default_branch branch_owners =
    or_else (registered branch branch_owners)
      (or_else (convention_owner branch) (default_owner repo_owner is_default_branch))

abbrev is_default : Option String → String → Bool
is_default none branch = false
is_default (some d) branch = str_eq branch d

-- The branches that the check warns of, in order.
unfoldable pub check_owner_less_branches :
    List String → Option String → Option String → List (String × String) → List String
check_owner_less_branches [] repo_owner default_branch branch_owners = []
check_owner_less_branches (branch ∷ branches) repo_owner default_branch branch_owners =
    let rest = check_owner_less_branches branches repo_owner default_branch branch_owners in
    elim (resolve_branch_owner branch repo_owner (is_default default_branch branch) branch_owners) [
      | none ↦ branch ∷ rest
      | some owner ↦ rest
    ]

cut-append :
    (a b : String)
    → all_chars (λ n. not (n == b'/')) a ≡ true
    → cut (a +++ push "/" b) ≡ some (a, b)
unfolding cut
cut-append nothing b h = rw (nil-append (push "/" b)) refl
cut-append (push c a) b h = rw (cons-append c a (push "/" b)) (ground (arith, cut-append a b))

topic_plain : (s : String) → all_chars (λ n. not (n == 10)) s ≡ true → topic_rest s ≡ true
unfolding topic_rest
topic_plain nothing h = refl
topic_plain (push c s) h = ground (arith, topic_plain s)

is_topic_plain : (s : String) → s ≢ "" → all_chars (λ n. not (n == 10)) s ≡ true → is_topic s ≡ true
unfolding is_topic
is_topic_plain nothing h k = absurd (h refl)
is_topic_plain (push c s) h k = ground (arith, topic_plain s)

decided :
    (o : Option String) (owner : String)
    → or_else o (some owner) ≡ (elim o [ none ↦ some owner | some other ↦ some other ])
unfolding or_else
decided none owner = refl
decided (some other) owner = refl

-- A branch named `<type>/<owner>/<topic>`, with no empty part, no slash in the type and the owner
-- and no newline in the topic, belongs to that owner, on the default branch too, unless the
-- registry names another; a registry entry decides whatever the name.
pub resolve_branch_owner-precedence :
    (kind owner topic : String) (repo_owner : Option String) (is_default_branch : Bool)
    (branch_owners : List (String × String))
    → kind ≢ ""
    → owner ≢ ""
    → topic ≢ ""
    → all_chars (λ n. not (n == b'/')) kind ≡ true
    → all_chars (λ n. not (n == b'/')) owner ≡ true
    → all_chars (λ n. not (n == 10)) topic ≡ true
    → resolve_branch_owner
        (kind +++ push "/" (owner +++ push "/" topic))
        repo_owner
        is_default_branch
        branch_owners
      ≡ (elim (registered (kind +++ push "/" (owner +++ push "/" topic)) branch_owners) [
        | none ↦ some owner
        | some other ↦ some other
      ])
unfolding resolve_branch_owner
resolve_branch_owner-precedence kind owner topic repo_owner d branch_owners k o t ks os ts =
    rw (cut-append kind (owner +++ push "/" topic) ks) (
      rw (filled_test kind k, cut-append owner topic os)
        (rw (filled_test owner o, is_topic_plain topic t ts)
          (decided (registered _ branch_owners) owner)))
