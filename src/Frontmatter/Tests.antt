-- ===== src/Frontmatter/Tests.antt =====
-- src/otaman_core/frontmatter.py: a message with a fence in its body, and a fence inside a line.
use otaman_core.Prelude.{
  String, true, false, Option, none, some, [], ◌∷◌, starts_with, drop_prefix, str_eq, if◌then◌else◌,
  ◌≡◌, refl, strip, rstrip,
}
use otaman_core.Yaml.{Value, Entries, str, bool, list, dict, end, entry, nil, cons, put}
use otaman_core.Yaml.Text.{to_str}
use otaman_core.Frontmatter.{
  drop_blanks, line_end, after_fence, closing, block_and_body, opening, parse, cc_recipients,
  is_cc_copy, is_lowered,
}
use otaman_core.Frontmatter.Written.{message, has_fence}
use otaman_core.Frontmatter.Copied.{parse-inject_x_cc}
use otaman_core.Bus.CcFanout.Copies.{inject_x_cc}

-- A loader that knows two texts.
abbrev kind_and_cc : Entries
kind_and_cc = entry (str "type") (str "question") (entry (str "cc") (str " core ") end)

abbrev kind_only : Entries
kind_only = entry (str "type") (str "a") end

abbrev load : String → Option Value
load s =
    if str_eq s "type: question\ncc: core"
    then some (dict kind_and_cc)
    else if str_eq s "type: a"
    then some (dict kind_only)
    else none

fields_read : cc_recipients kind_and_cc ≡ "core" ∷ []
unfolding cc_recipients strip to_str
fields_read = refl

list_read :
    cc_recipients (entry (str "cc") (list (cons (str "a ") (cons (str " ") nil))) end) ≡ "a" ∷ []
unfolding cc_recipients strip to_str
list_read = refl

copy_read : is_cc_copy (entry (str "x-cc") (str " True ") end) ≡ true
unfolding is_cc_copy is_lowered strip
copy_read = refl

flag_read : is_cc_copy (entry (str "x-cc") (bool false) end) ≡ false
unfolding is_cc_copy
flag_read = refl

unclosed : parse load "---\ntype: a\n" ≡ (end, "---\ntype: a\n")
unfolding parse opening block_and_body closing after_fence drop_blanks line_end starts_with
    drop_prefix
unclosed = refl

-- The closing fence need not start a line: the field after it is lost.
cut_short : parse load "---\ntype: a---\ncc: b\n---\nHi" ≡ (kind_only, "cc: b\n---\nHi")
unfolding parse opening block_and_body closing after_fence drop_blanks line_end starts_with
    drop_prefix
cut_short = refl

fence_in_body :
    parse load (message "type: question\ncc: core" "Hi\n---\nbye") ≡ (kind_and_cc, "Hi\n---\nbye")
unfolding parse opening block_and_body closing after_fence drop_blanks line_end starts_with
    drop_prefix
fence_in_body = refl

-- The loader knows the copy's block as well.
abbrev load_copy : String → Option Value
load_copy s =
    if str_eq s "type: question\ncc: core\nx-cc: true"
    then some (dict (put "x-cc" (bool true) kind_and_cc))
    else load s

parse-inject_x_cc_example :
    (parse load_copy (inject_x_cc (message "type: question\ncc: core" "Hi\n---\nbye"))
      ≡ (put "x-cc" (bool true) kind_and_cc, "Hi\n---\nbye"))
    × ((is_cc_copy
            (parse load_copy (inject_x_cc (message "type: question\ncc: core" "Hi\n---\nbye"))).0
          ≡ true)
        × (cc_recipients
              (parse load_copy (inject_x_cc (message "type: question\ncc: core" "Hi\n---\nbye"))).0
            ≡ cc_recipients kind_and_cc))
unfolding has_fence starts_with rstrip
parse-inject_x_cc_example =
    parse-inject_x_cc load_copy "type: question\ncc: core" "Hi\n---\nbye" kind_and_cc
      (refl, (refl, refl)) refl
