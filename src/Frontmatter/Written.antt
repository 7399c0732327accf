-- ===== src/Frontmatter/Written.antt =====
-- A message that was written with its fences parses (src/otaman_core/frontmatter.py: parse).
use Prim.Native.String.{[], ◌∷◌}
use Prim.Native.Char.{Char}
use text.Mathlib.TextLemmas.{nil-append, cons-append}
use otaman_core.Prelude.{
  code, String, Bool, true, false, not, ◌||◌, Option, none, some, ◌==◌, ◌+++◌, starts_with,
  starts_with-append, drop_prefix-append, all_chars, Bool-cases, inl, inr, ◌≡◌, refl, sym, ap, ◌∙◌,
  subst, arith,
}
use otaman_core.Yaml.{Value, Entries, dict}
use otaman_core.Frontmatter.{
  drop_blanks, drop_one, line_end, after_fence, closing, block_and_body, opening, parse,
}

-- The text holds three hyphens in a row; the text ends in a carriage return.
unfoldable pub has_fence : String → Bool
has_fence [] = false
has_fence (c ∷ s) = starts_with (c ∷ s) "---" || has_fence s

unfoldable pub ends_cr : String → Bool
ends_cr [] = false
ends_cr (c ∷ []) = code c == 13
ends_cr (c ∷ d ∷ s) = ends_cr (d ∷ s)

pub newline-append : (s : String) → "\n" +++ s ≡ "\n" ∷ s
newline-append s = cons-append "\n" [] s ∙ ap (λ t. "\n" ∷ t) (nil-append s)

-- A test of a prefix without line breaks does not see past one.
pub starts_with-break :
    (t r p : String)
    → all_chars (λ n. not (n == 10)) p ≡ true
    → starts_with (t +++ "\n" ∷ r) p ≡ starts_with t p
unfolding starts_with
starts_with-break t r [] h = refl
starts_with-break [] r (d ∷ p) h = rw (nil-append ("\n" ∷ r)) (ground (arith, h))
starts_with-break (c ∷ t) r (d ∷ p) h =
    rw (cons-append c t ("\n" ∷ r)) (rw (starts_with-break t r p (ground (arith, h))) refl)

pub no_fence_ahead :
    (t r : String) → has_fence t ≡ false → starts_with (t +++ "\n" ∷ r) "---" ≡ false
unfolding has_fence
no_fence_ahead [] r h = starts_with-break [] r "---" refl ∙ unfold starts_with in refl
no_fence_ahead (c ∷ t) r h = starts_with-break (c ∷ t) r "---" refl ∙ ground (arith, h)

after_lf-inside :
    (d : Char) (t r : String)
    → has_fence (d ∷ t) ≡ false
    → starts_with (drop_one 10 (d ∷ (t +++ "\n" ∷ r))) "---" ≡ false
unfolding has_fence
after_lf-inside d t r h = elim (Bool-cases (code d == 10)) [
  | inl lf ↦ rw lf (no_fence_ahead t r (ground (arith, h)))
  | inr other ↦ rw other (
      subst (λ u. starts_with u "---" ≡ false) (cons-append d t ("\n" ∷ r))
        (no_fence_ahead (d ∷ t) r (unfold has_fence in h)))
]

after_cr-inside :
    (c : Char) (t r : String)
    → has_fence (c ∷ t) ≡ false
    → ends_cr (c ∷ t) ≡ false
    → starts_with (drop_one 10 (drop_one 13 (c ∷ (t +++ "\n" ∷ r)))) "---" ≡ false
unfolding has_fence ends_cr
after_cr-inside c [] r h e = elim (Bool-cases (code c == 13)) [
  | inl cr ↦ ground (arith, cr, e)
  | inr other ↦ rw other (after_lf-inside c [] r h)
]
after_cr-inside c (d ∷ t) r h e = elim (Bool-cases (code c == 13)) [
  | inl cr ↦ rw cr (
      subst (λ u. starts_with (drop_one 10 u) "---" ≡ false) (sym (cons-append d t ("\n" ∷ r)))
        (after_lf-inside d t r (ground (arith, h))))
  | inr other ↦ rw other (after_lf-inside c (d ∷ t) r h)
]

-- No position inside the block is taken for its end.
closing-inside :
    (c : Char) (t r : String)
    → has_fence (c ∷ t) ≡ false
    → ends_cr (c ∷ t) ≡ false
    → closing (c ∷ (t +++ "\n" ∷ r)) ≡ none
unfolding closing
closing-inside c t r h e = rw (after_cr-inside c t r h e) refl

-- `\n---\n` and the body
abbrev pub ending : String → String
ending body = "\n" ∷ ("---" +++ "\n" ∷ body)

-- A message: a fence, a block, a fence, a body.
abbrev pub message : String → String → String
message block body = "---" +++ "\n" ∷ (block +++ ending body)

line_end-newline : (s : String) → line_end ("\n" ∷ s) ≡ some s
unfolding line_end
line_end-newline s = refl

after_fence-newline : (s : String) → after_fence ("\n" ∷ s) ≡ some s
unfolding after_fence drop_blanks line_end
after_fence-newline s = refl

closing-ending : (body : String) → closing (ending body) ≡ some body
unfolding closing
closing-ending body =
    rw (starts_with-append "---" ("\n" ∷ body), drop_prefix-append "---" ("\n" ∷ body))
      (after_fence-newline body)

ends_cr-rest : (c : Char) (t : String) → ends_cr (c ∷ t) ≡ false → ends_cr t ≡ false
unfolding ends_cr
ends_cr-rest c [] e = refl
ends_cr-rest c (d ∷ t) e = unfold ends_cr in e

pub has_fence-rest : (c : Char) (t : String) → has_fence (c ∷ t) ≡ false → has_fence t ≡ false
unfolding has_fence
has_fence-rest c t h = ground (arith, h)

block_and_body-here :
    (c : Char) (s body : String)
    → closing (c ∷ s) ≡ some body
    → block_and_body (c ∷ s) ≡ some ("", body)
unfolding block_and_body
block_and_body-here c s body e = rw (block_and_body, e) refl

block_and_body-later :
    (c : Char) (s : String) (p : String × String)
    → closing (c ∷ s) ≡ none
    → block_and_body s ≡ some p
    → block_and_body (c ∷ s) ≡ some (c ∷ p.0, p.1)
unfolding block_and_body
block_and_body-later c s p e f = rw (block_and_body, e, f) refl

block_and_body-written :
    (block body : String)
    → has_fence block ≡ false
    → ends_cr block ≡ false
    → block_and_body (block +++ ending body) ≡ some (block, body)
block_and_body-written [] body h e =
    ap block_and_body (nil-append (ending body))
    ∙ block_and_body-here "\n" ("---" +++ "\n" ∷ body) body (closing-ending body)
block_and_body-written (c ∷ t) body h e =
    ap block_and_body (cons-append c t (ending body))
    ∙ block_and_body-later c (t +++ ending body) (t, body)
        (closing-inside c t ("---" +++ "\n" ∷ body) h e)
        (block_and_body-written t body (has_fence-rest c t h) (ends_cr-rest c t e))

opening-written : (s : String) → opening ("---" +++ "\n" ∷ s) ≡ some s
unfolding opening drop_blanks
opening-written s =
    rw (starts_with-append "---" ("\n" ∷ s), drop_prefix-append "---" ("\n" ∷ s))
      (line_end-newline s)

-- A message written as a fence, a block, a fence and a body, parses to what the block loads as and
-- to that body, where the block loads as a mapping, holds no three hyphens in a row and does not end
-- in a carriage return. The body may hold fences.
pub parse-written :
    (load : String → Option Value) (block body : String) (fm : Entries)
    → load block ≡ some (dict fm)
    → has_fence block ≡ false
    → ends_cr block ≡ false
    → parse load (message block body) ≡ (fm, body)
unfolding parse
parse-written load block body fm l h e =
    rw (parse, opening-written (block +++ ending body))
      (rw (block_and_body-written block body h e) (rw l refl))
