-- ===== src/TaskComplete.antt =====
-- src/otaman_core/task_complete.py: the ids that a `**Completed**:` line names. `\d` is the ASCII
-- digits; `is_word` is `\w`.
pub mod Filed
pub mod Effective
pub mod Evidence
use Prim.Native.Char.{Char}
use otaman_core.Prelude.{
  ℕ, zero, suc, ◌+◌, ◌*◌, ◌-◌, code, String, Bool, true, false, not, ◌||◌, ◌&&◌, Option, none, some,
  List, [], ◌∷◌, ◌++◌, leb, ◌==◌, ◌+++◌, str_eq, is_empty, is_space, strip, lstrip, starts_with,
  drop_prefix, map, split_on, if◌then◌else◌,
}
use otaman_core.Yaml.Text.{decimal}

abbrev pub is_digit : ℕ → Bool
is_digit n = leb b'0' n && leb n b'9'

abbrev is_letter : ℕ → Bool
is_letter n = (leb b'A' n && leb n b'Z') || (leb b'a' n && leb n b'z')

abbrev is_suffix : ℕ → Bool
is_suffix n = (leb b'a' n && leb n b'z') || is_digit n

-- Where `\d+[A-Za-z]?(?:\.\d+[A-Za-z]?)*(?:-[a-z0-9]+)?` stands after some characters.
pub data IdState : Type 0 where
  start digit letter dot hyphen suffix : IdState

abbrev after_segment : ℕ → Option IdState
after_segment n = if n == b'.' then some dot else if n == b'-' then some hyphen else none

abbrev step : IdState → ℕ → Option IdState
step start n = if is_digit n then some digit else none
step digit n =
    if is_digit n then some digit else if is_letter n then some letter else after_segment n
step letter n = after_segment n
step dot n = if is_digit n then some digit else none
step hyphen n = if is_suffix n then some suffix else none
step suffix n = if is_suffix n then some suffix else none

abbrev accepts : IdState → Bool
accepts start = false
accepts digit = true
accepts letter = true
accepts dot = false
accepts hyphen = false
accepts suffix = true

module _ (is_word : ℕ → Bool) where
  -- The longest match that ends at a word boundary: what is matched ends in a word character.
  run : IdState → String → Option String
  run q String.[] = if accepts q then some "" else none
  run q (String.◌∷◌ c s) =
      let here = if accepts q && not (is_word (code c)) then some "" else none in
      elim (step q (code c)) [
        | none ↦ here
        | some r ↦ elim (run r s) [ none ↦ here | some t ↦ some (String.◌∷◌ c t) ]
      ]

  unfoldable pub task_id_of : String → Option String
  unfolding run
  task_id_of task_text = run start (strip task_text)

  unfoldable pub names_task : String → Bool
  unfolding run
  names_task piece = elim (run start piece) [ none ↦ false | some t ↦ true ]

abbrev pub completed_all : String
completed_all = "*"

-- A character without its case, as `re.IGNORECASE` and `lower` compare it with an ASCII letter.
abbrev fold_code : ℕ → ℕ
fold_code n =
    if leb b'A' n && leb n b'Z'
    then n + 32
    else if n == 0x17f
    then b's'
    else if n == 0x212a
    then b'k'
    else n

unfoldable pub drop_folded : String → String → Option String
drop_folded s String.[] = some s
drop_folded String.[] (String.◌∷◌ d p) = none
drop_folded (String.◌∷◌ c s) (String.◌∷◌ d p) =
    let rest = drop_folded s p in if fold_code (code c) == code d then rest else none

abbrev after_spaces : String → Option String
after_spaces String.[] = none
after_spaces (String.◌∷◌ c s) = if is_space (code c) then some (lstrip is_space s) else none

abbrev or_text : String → Option String → String
or_text s none = s
or_text s (some t) = t

-- `re.sub(r"^tasks?\s+", "", spec, flags=re.IGNORECASE)`
unfoldable pub drop_tasks : String → String
unfolding drop_folded lstrip
drop_tasks spec = elim (drop_folded spec "task") [
  | none ↦ spec
  | some rest ↦ elim (drop_folded rest "s") [
    | none ↦ or_text spec (after_spaces rest)
    | some more ↦ or_text spec (after_spaces more)
  ]
]

-- the pieces between commas and blanks, which are not empty
unfoldable pub pieces : String → List String
pieces String.[] = []
pieces (String.◌∷◌ c s) =
    let rest = pieces s in if code c == b',' || is_space (code c) then rest else joined c s rest
  where
    joined : Char → String → List String → List String
    joined c String.[] rest = String.◌∷◌ c "" ∷ rest
    joined c (String.◌∷◌ d s) [] = String.◌∷◌ c "" ∷ []
    joined c (String.◌∷◌ d s) (w ∷ ws) =
        if code d == b',' || is_space (code d)
        then String.◌∷◌ c "" ∷ w ∷ ws
        else String.◌∷◌ c w ∷ ws

-- `(\d+)` and what follows it, with the number that it reads
read_int : ℕ → Bool → String → Option (ℕ × String)
read_int n seen String.[] = if seen then some (n, "") else none
read_int n seen (String.◌∷◌ c s) =
    let more = read_int (n * 10 + (code c - b'0')) true s in
    if is_digit (code c) then more else if seen then some (n, String.◌∷◌ c s) else none

abbrev after : String → String → Option String
after p s = if starts_with s p then some (drop_prefix s p) else none

pub record Range : Type 0 where
  pub major_a : ℕ
  pub minor_a : ℕ
  pub major_b : ℕ
  pub minor_b : ℕ

abbrev pub and_then {ℓ} : {A B : Type ℓ} → Option A → (A → Option B) → Option B
and_then none f = none
and_then (some a) f = f a

-- `^(\d+)\.(\d+)\s*-\s*(\d+)\.(\d+)$` on a piece, which has no blanks
unfoldable pub range_of : String → Option Range
unfolding read_int
range_of piece = and_then (read_int 0 false piece) (λ a. and_then (after "." a.1) (λ s.
    and_then (read_int 0 false s) (λ b. and_then (after "-" b.1) (λ t.
      and_then (read_int 0 false t) (λ c. and_then (after "." c.1) (λ u.
        and_then (read_int 0 false u) (λ d.
          if is_empty d.1
          then some (record { major_a = a.0; minor_a = b.0; major_b = c.0; minor_b = d.0 })
          else none)))))))

-- `f"{major_a}.{n}" for n in range(minor_a, minor_b + 1)`: `count` numbers from `n` on
unfoldable pub numbered : ℕ → ℕ → ℕ → List String
numbered major n zero = []
numbered major n (suc count) = (decimal major +++ "." +++ decimal n) ∷ numbered major (suc n) count

-- Subtraction stops at 0: a range that goes down is empty.
unfoldable pub range_ids : Range → List String
unfolding numbered
range_ids r =
    if r.major_a == r.major_b then numbered r.major_a r.minor_a (suc r.minor_b - r.minor_a) else []

unfoldable pub ids_of_piece : (ℕ → Bool) → String → List String
unfolding range_of range_ids names_task
ids_of_piece is_word piece = elim (range_of piece) [
  | some r ↦ range_ids r
  | none ↦ if names_task is_word piece then piece ∷ [] else []
]

unfoldable pub all_ids : (ℕ → Bool) → List String → List String
all_ids is_word [] = []
all_ids is_word (piece ∷ more) = ids_of_piece is_word piece ++ all_ids is_word more

-- `_parse_completed_spec`: the set, as a list of its members
unfoldable pub parse_completed_spec : (ℕ → Bool) → String → List String
unfolding pieces all_ids drop_tasks
parse_completed_spec is_word spec = elim (drop_folded (strip spec) "all") [
  | some rest ↦ completed_all ∷ []
  | none ↦ all_ids is_word (pieces (drop_tasks (strip spec)))
]
