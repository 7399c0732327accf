-- ===== src/Bus/CcFanout/Tests.antt =====
-- src/otaman_core/bus/cc_fanout.py: the file of the routing rules, and a copy's flag.
use otaman_core.Prelude.{[], ◌∷◌, ok, err, ◌≡◌, refl, starts_with, drop_prefix, rstrip}
use otaman_core.Yaml.{Entries, content, str, list, dict, nil, cons, end, entry}
use otaman_core.Bus.CcFanout.Copies.{
  load_routing_rules, mappings, no_get, inject_x_cc, split_head, cut_fence, flagged,
}

abbrev rule : Entries
rule = entry (str "cc") (list (cons (str "core") nil)) end

-- What is no mapping among the rules is passed over.
rules_loaded :
    load_routing_rules (
      content (
        dict (
          entry
            (str "bus")
            (dict (entry (str "routing_rules") (list (cons (str "x") (cons (dict rule) nil))) end))
            end)))
    ≡ ok (rule ∷ [])
unfolding load_routing_rules mappings
rules_loaded = refl

-- A file that holds a list is not taken for an empty one: the error gets out.
list_raises : load_routing_rules (content (list (cons (str "x") nil))) ≡ err no_get
unfolding load_routing_rules
list_raises = refl

flag_last : inject_x_cc "--- \ntype: a\n\n---\nHi" ≡ "--- \ntype: a\nx-cc: true\n---\nHi"
unfolding inject_x_cc split_head cut_fence flagged starts_with drop_prefix rstrip
flag_last = refl

-- The blanks after the first fence may take line breaks, and so a line of the frontmatter's own.
blank_line_in_head : inject_x_cc "---\n\ntype: a\n---\n" ≡ "---\n\ntype: a\nx-cc: true\n---\n"
unfolding inject_x_cc split_head cut_fence flagged starts_with drop_prefix rstrip
blank_line_in_head = refl

no_fence : inject_x_cc "type: a" ≡ "type: a"
unfolding inject_x_cc starts_with
no_fence = refl
