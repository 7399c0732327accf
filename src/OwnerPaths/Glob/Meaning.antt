-- ===== src/OwnerPaths/Glob/Meaning.antt =====
-- What an owner-paths pattern means, read off its text (src/otaman_core/owner_paths.py: path_matches).
use Prim.Native.String.{◌∷◌}
use otaman_core.Prelude.{
  Char, code, String, true, false, ◌+++◌, starts_with, any_char, all_chars, ◌≡◌, ◌≢◌, ◌⊎◌,
}
use otaman_core.OwnerPaths.Glob.{not_slash, not_newline, is_wildcard}

-- A glob and a text that it matches. `**/` is nothing or some directories, any other `**` is anything,
-- `*` anything in one segment, `?` one character of a segment, and any other character itself. No `**`
-- spans a newline; one newline at the very end of the text is passed over.
pub data Globs : String → String → Type 0 where
  stop : Globs "" ""
  newline : Globs "" "\n"
  no_dirs : {p s : String} → Globs p s → Globs ("*" ∷ "*" ∷ "/" ∷ p) s
  dirs :
      {p s : String} (a : String)
      → all_chars not_newline a ≡ true
      → Globs p s
      → Globs ("*" ∷ "*" ∷ "/" ∷ p) (a +++ "/" ∷ s)
  stars :
      {p s : String} (a : String)
      → starts_with p "/" ≡ false
      → all_chars not_newline a ≡ true
      → Globs p s
      → Globs ("*" ∷ "*" ∷ p) (a +++ s)
  star :
      {p s : String} (a : String)
      → starts_with p "*" ≡ false
      → all_chars not_slash a ≡ true
      → Globs p s
      → Globs ("*" ∷ p) (a +++ s)
  question :
      {p s : String} (c : Char) → not_slash (code c) ≡ true → Globs p s → Globs ("?" ∷ p) (c ∷ s)
  same :
      {p s : String} (c : Char) → is_wildcard (code c) ≡ false → Globs p s → Globs (c ∷ p) (c ∷ s)

-- What a pattern owns, both without slashes around them: nothing if it is empty; what the glob matches,
-- with a wildcard in it; and else the path of that name and its subtree.
abbrev pub Matches : String → String → Type 0
Matches pat path =
    (pat ≢ "")
    × (((any_char is_wildcard pat ≡ true) × Globs pat path)
        ⊎ ((any_char is_wildcard pat ≡ false)
            × ((path ≡ pat) ⊎ ((rest : String) × (path ≡ (pat +++ "/") +++ rest)))))
