-- ===== src/Frontmatter/Copied.antt =====
-- A copy that inject_x_cc (src/otaman_core/bus/cc_fanout.py) makes of a message, as
-- src/otaman_core/frontmatter.py reads it.
use Prim.Native.String.{[], ◌∷◌}
use Prim.Native.Char.{Char}
use text.Mathlib.TextLemmas.{nil-append, cons-append}
use otaman_core.Prelude.{
  code, String, Bool, true, false, not, Option, none, some, ◌==◌, ◌+++◌, starts_with, drop_prefix,
  starts_with-append, drop_prefix-append, is_space, rstrip, ◌≡◌, refl, sym, ap, ◌∙◌, subst, arith,
}
use otaman_core.Yaml.{Value, Entries, dict, bool, put}
use otaman_core.Yaml.Laws.{get-put}
use otaman_core.Frontmatter.{parse, cc_recipients, is_cc_copy, names_of}
use otaman_core.Frontmatter.Written.{
  has_fence, ends_cr, ending, newline-append, message, no_fence_ahead, has_fence-rest,
  parse-written,
}
use otaman_core.Bus.CcFanout.Copies.{Split, cut_fence, split_head, flagged, injected, inject_x_cc}

-- The block starts with what is no blank, holds no three hyphens in a row, and does not end in a
-- line break.
abbrev starts_filled : String → Bool
starts_filled [] = false
starts_filled (c ∷ s) = not (is_space (code c))

abbrev pub IsBlock : String → Type 0
IsBlock block =
    (starts_filled block ≡ true)
    × ((has_fence block ≡ false) × (rstrip (λ n. n == 10) block ≡ block))

cut_fence-here :
    (s : String)
    → starts_with s "---" ≡ true
    → cut_fence ("\n" ∷ s) ≡ some ("", drop_prefix s "---")
unfolding cut_fence starts_with drop_prefix
cut_fence-here s h = rw (cut_fence, h) refl

cut_fence-later :
    (c : Char) (s : String) (p : String × String)
    → starts_with s "---" ≡ false
    → cut_fence s ≡ some p
    → cut_fence (c ∷ s) ≡ some (c ∷ p.0, p.1)
unfolding cut_fence
cut_fence-later c s p h e =
    let other : starts_with (c ∷ s) "\n---" ≡ false = unfold starts_with in ground (arith, h) in
    rw (cut_fence, other, e) refl

cut_fence-written :
    (block body : String)
    → has_fence block ≡ false
    → cut_fence (block +++ ending body) ≡ some (block, "\n" ∷ body)
cut_fence-written [] body h =
    ap cut_fence (nil-append (ending body))
    ∙ cut_fence-here ("---" +++ "\n" ∷ body) (starts_with-append "---" ("\n" ∷ body))
    ∙ ap (λ r. some ("", r)) (drop_prefix-append "---" ("\n" ∷ body))
cut_fence-written (c ∷ t) body h =
    ap cut_fence (cons-append c t (ending body))
    ∙ cut_fence-later c (t +++ ending body) (t, "\n" ∷ body)
        (no_fence_ahead t ("---" +++ "\n" ∷ body) (has_fence-rest c t h))
        (cut_fence-written t body (has_fence-rest c t h))

split_head-plain : (c : Char) (s : String) → is_space (code c) ≡ false → split_head (c ∷ s) ≡ none
unfolding split_head
split_head-plain c s h = rw (split_head, h) refl

split_head-here :
    (s : String) (p : String × String)
    → split_head s ≡ none
    → cut_fence s ≡ some p
    → split_head ("\n" ∷ s) ≡ some (record { head = "\n" ∷ ""; fm_body = p.0; rest = p.1 })
unfolding split_head
split_head-here s p n e = rw (split_head, n, e) refl

no_longer_head :
    (block rest : String) → starts_filled block ≡ true → split_head (block +++ rest) ≡ none
no_longer_head [] rest h = ground arith
no_longer_head (c ∷ t) rest h =
    ap split_head (cons-append c t rest) ∙ split_head-plain c (t +++ rest) (ground (arith, h))

has_fence-flag : (t : String) → has_fence t ≡ false → has_fence (t +++ "\n" ∷ "x-cc: true") ≡ false
unfolding has_fence
has_fence-flag [] h = rw (nil-append ("\n" ∷ "x-cc: true")) (unfold starts_with in refl)
has_fence-flag (c ∷ t) h =
    let here : starts_with (c ∷ (t +++ "\n" ∷ "x-cc: true")) "---" ≡ false =
      subst (λ u. starts_with u "---" ≡ false) (cons-append c t ("\n" ∷ "x-cc: true"))
        (no_fence_ahead (c ∷ t) "x-cc: true" h) in
    let there : has_fence (t +++ "\n" ∷ "x-cc: true") ≡ false =
      has_fence-flag t (has_fence-rest c t h) in
    ap has_fence (cons-append c t ("\n" ∷ "x-cc: true")) ∙ rw (here, there) refl

ends_cr-flag : (t : String) → ends_cr (t +++ "\n" ∷ "x-cc: true") ≡ false
unfolding ends_cr
ends_cr-flag [] = refl
ends_cr-flag (c ∷ []) = ap ends_cr (cons-append c "" ("\n" ∷ "x-cc: true"))
ends_cr-flag (c ∷ d ∷ t) =
    ap ends_cr (cons-append c (d ∷ t) ("\n" ∷ "x-cc: true"))
    ∙ ap (λ u. ends_cr (c ∷ u)) (cons-append d t ("\n" ∷ "x-cc: true"))
    ∙ sym (ap ends_cr (cons-append d t ("\n" ∷ "x-cc: true")))
    ∙ ends_cr-flag (d ∷ t)

inject_x_cc-split :
    (text : String) (m : Split)
    → split_head text ≡ some m
    → inject_x_cc ("---" +++ text) ≡ injected ("---" +++ text) (some m)
unfolding inject_x_cc
inject_x_cc-split text m e =
    rw (starts_with-append "---" text, drop_prefix-append "---" text, e) refl

flagged-trimmed :
    (block : String)
    → rstrip (λ n. n == 10) block ≡ block
    → flagged block ≡ block +++ "\nx-cc: true"
unfolding flagged
flagged-trimmed block h = ap (λ u. u +++ "\nx-cc: true") h

put-flag : (fm : Entries) → is_cc_copy (put "x-cc" (bool true) fm) ≡ true
unfolding is_cc_copy
put-flag fm = rw (get-put "x-cc" "x-cc" (bool true) fm) refl

recipients-flag : (fm : Entries) → cc_recipients (put "x-cc" (bool true) fm) ≡ cc_recipients fm
unfolding cc_recipients
recipients-flag fm = ap names_of (get-put "x-cc" "cc" (bool true) fm)

inject_x_cc-message :
    (block body : String)
    → IsBlock block
    → inject_x_cc (message block body) ≡ message (block +++ "\nx-cc: true") body
inject_x_cc-message block body (filled, (fence, trimmed)) =
    inject_x_cc-split ("\n" ∷ (block +++ ending body))
      (record { head = "\n"; fm_body = block; rest = "\n" ∷ body })
      (split_head-here (block +++ ending body) (block, "\n" ∷ body)
        (no_longer_head block (ending body) filled) (cut_fence-written block body fence))
    ∙ ap (λ u. "---" +++ "\n" +++ u +++ "\n---" +++ "\n" ∷ body) (flagged-trimmed block trimmed)
    ∙ ap (λ u. "---" +++ u) (newline-append _)
    ∙ ap (λ u. "---" +++ "\n" ∷ ((block +++ "\nx-cc: true") +++ u))
        (cons-append "\n" "---" ("\n" ∷ body))

-- A message whose block starts with what is no blank, holds no three hyphens in a row and does not
-- end in a line break: its copy parses to the same body, under the fields of the block with the
-- copy's flag, where the block with the line of the flag loads as those fields. The copy is seen as
-- one, and its recipients are those of the message.
pub parse-inject_x_cc :
    (load : String → Option Value) (block body : String) (fm : Entries)
    → IsBlock block
    → load (block +++ "\nx-cc: true") ≡ some (dict (put "x-cc" (bool true) fm))
    → (parse load (inject_x_cc (message block body)) ≡ (put "x-cc" (bool true) fm, body))
      × ((is_cc_copy (parse load (inject_x_cc (message block body))).0 ≡ true)
          × (cc_recipients (parse load (inject_x_cc (message block body))).0 ≡ cc_recipients fm))
parse-inject_x_cc load block body fm written l =
    let read : parse load (inject_x_cc (message block body)) ≡ (put "x-cc" (bool true) fm, body) =
      ap (parse load) (inject_x_cc-message block body written)
      ∙ parse-written load (block +++ "\nx-cc: true") body (put "x-cc" (bool true) fm) l
          (has_fence-flag block written.1.0) (ends_cr-flag block) in
    (
      read,
      (
        ap (λ r. is_cc_copy r.0) read ∙ put-flag fm,
        ap (λ r. cc_recipients r.0) read ∙ recipients-flag fm,
      ),
    )
