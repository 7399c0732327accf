-- ===== src/TaskComplete/Evidence.antt =====
-- What src/otaman_core/task_complete.py gathers from the bus for one task.
use mathlib.Core.List.{Perm, Permᴰ}
use mathlib.Core.Logic.{∥∥₁_elim}
use mathlib.Core.Option
use native.Mathlib.Nat.{ℕ_set}
use mathlib.Core.List.Permᴰ.{nil, cons, swap, trans}
use otaman_core.Prelude.{
  ℕ, String, Bool, true, false, ◌&&◌, Option, none, some, List, [], ◌∷◌, ltb, str_eq, str_eq_comm,
  elem, any, split_on, eq_iff, Bool-cases, inl, inr, ◌≡◌, refl, sym, ap, ◌∙◌, arith, if◌then◌else◌,
}
use otaman_core.TaskComplete.Filed.{
  Clock, Times, time_of, newest, merge_newest, merge_ids, Filings, bucket, set_bucket, filing_time,
  filing_of, add_to, add_filing, read_bus, filed_complete_by_change, filed_complete_at,
}

abbrev pub join : Option (Option ℕ) → Option ℕ
join none = none
join (some t) = t

-- A filing at `t`, on top of what is known.
abbrev pub filed_on_top : Option (Option ℕ) → Option ℕ → Option (Option ℕ)
filed_on_top known t = some (newest (join known) t)

newest_same : (t : ℕ) → newest (some t) (some t) ≡ some t
newest_same t = elim (Bool-cases (ltb t t)) [ inl y ↦ rw y refl | inr n ↦ rw n refl ]

newest-twice : (p t : Option ℕ) → newest (newest p t) t ≡ newest p t
newest-twice p none = refl
newest-twice none (some t) = newest_same t
newest-twice (some p) (some t) = elim (Bool-cases (ltb p t)) [
  | inl y ↦ rw y (newest_same t)
  | inr n ↦ rw n (rw n refl)
]

newest-swap : (k a b : Option ℕ) → newest (newest k a) b ≡ newest (newest k b) a
newest-swap k none none = refl
newest-swap k none (some b) = refl
newest-swap k (some a) none = refl
newest-swap none (some a) (some b) = ground arith
newest-swap (some k) (some a) (some b) = ground arith

times_set : IsSet (Option (Option ℕ))
times_set = Option.is_set (Option.is_set ℕ_set)

newest-none : (t : Option ℕ) → newest none t ≡ t
newest-none none = refl
newest-none (some t) = refl

-- Two names that are one, or are not, to a third.
same_test : (i j c : String) → str_eq i j ≡ true → str_eq j c ≡ str_eq i c
same_test i j c same = sym (ap (λ u. str_eq u c) ((eq_iff i j).0 same))

other_test : (i j c : String) → str_eq i j ≡ false → str_eq i c ≡ true → str_eq j c ≡ false
other_test i j c other here = sym (ap (str_eq j) ((eq_iff i c).0 here)) ∙ str_eq_comm j i ∙ other

time_of-merge_newest :
    (tid j : String) (m : Times) (t : Option ℕ)
    → time_of tid (merge_newest m j t)
      ≡ (if str_eq j tid then filed_on_top (time_of tid m) t else time_of tid m)
unfolding time_of merge_newest
time_of-merge_newest tid j [] t = elim (Bool-cases (str_eq j tid)) [
  | inl y ↦ rw (y, newest-none t) refl
  | inr n ↦ rw n refl
]
time_of-merge_newest tid j ((i, p) ∷ m) t = elim (Bool-cases (str_eq i j)) [
  | inl same ↦ elim (Bool-cases (str_eq i tid)) [
    | inl here ↦ rw (same, same_test i j tid same, here) refl
    | inr there ↦ rw (same, same_test i j tid same, there) refl
  ]
  | inr other ↦ elim (Bool-cases (str_eq i tid)) [
    | inl here ↦ rw (other, here, other_test i j tid other here) refl
    | inr there ↦ rw (other, there) (time_of-merge_newest tid j m t)
  ]
]

time_of-merge_ids :
    (tid : String) (ids : List String) (m : Times) (t : Option ℕ)
    → time_of tid (merge_ids m ids t)
      ≡ (if elem tid ids then filed_on_top (time_of tid m) t else time_of tid m)
unfolding merge_ids
time_of-merge_ids tid [] m t = refl
time_of-merge_ids tid (j ∷ ids) m t =
    time_of-merge_ids tid ids (merge_newest m j t) t
    ∙ rw (time_of-merge_newest tid j m t, str_eq_comm tid j)
        (elim (Bool-cases (str_eq j tid)) [
          | inl y ↦ rw y (elim (Bool-cases (elem tid ids)) [
            | inl in_rest ↦ rw in_rest (ap some (newest-twice (join (time_of tid m)) t))
            | inr not_in ↦ rw not_in refl
          ])
          | inr n ↦ rw n refl
        ])

bucket-set_bucket :
    (c j : String) (m : Times) (out : Filings)
    → bucket c (set_bucket j m out) ≡ (if str_eq j c then m else bucket c out)
unfolding bucket set_bucket
bucket-set_bucket c j m [] = refl
bucket-set_bucket c j m ((i, n) ∷ out) = elim (Bool-cases (str_eq i j)) [
  | inl same ↦ elim (Bool-cases (str_eq i c)) [
    | inl here ↦ rw (same, same_test i j c same, here) refl
    | inr there ↦ rw (same, same_test i j c same, there) refl
  ]
  | inr other ↦ elim (Bool-cases (str_eq i c)) [
    | inl here ↦ rw (other, here, other_test i j c other here) refl
    | inr there ↦ rw (other, there) (bucket-set_bucket c j m out)
  ]
]

abbrev names_it : String → String → Option (String × List String) → Bool
names_it change tid none = false
names_it change tid (some f) = str_eq f.0 change && elem tid f.1

time_of-add_to :
    (change tid : String) (out : Filings) (o : Option (String × List String)) (t : Option ℕ)
    → time_of tid (bucket change (add_to out o t)) ≡ (
        if names_it change tid o
        then filed_on_top (time_of tid (bucket change out)) t
        else time_of tid (bucket change out))
time_of-add_to change tid out none t = refl
time_of-add_to change tid out (some (j, ids)) t =
    rw (bucket-set_bucket change j (merge_ids (bucket j out) ids t) out)
      (elim (Bool-cases (str_eq j change)) [
        | inl same ↦
            rw (same, (eq_iff j change).0 same) (time_of-merge_ids tid ids (bucket change out) t)
        | inr other ↦ rw other refl
      ])

module _ (is_word : ℕ → Bool) (fromisoformat : Clock) (change tid : String) where
  -- The message files the task for the change, in its own name.
  abbrev pub files : String → Bool
  files text = names_it change tid (filing_of is_word fromisoformat text)

  abbrev pub time_in : String → Option ℕ
  time_in text = filing_time is_word fromisoformat (split_on b'\n' text)

  -- The newest time among the messages that file the task, on top of what is known.
  abbrev pub newest_filing : Option (Option ℕ) → List String → Option (Option ℕ)
  newest_filing known [] = known
  newest_filing known (text ∷ texts) =
      newest_filing (if files text then filed_on_top known (time_in text) else known) texts

  time_of-read_bus :
      (out : Filings) (texts : List String)
      → time_of tid (bucket change (read_bus is_word fromisoformat out texts))
        ≡ newest_filing (time_of tid (bucket change out)) texts
  unfolding read_bus
  time_of-read_bus out [] = refl
  time_of-read_bus out (text ∷ texts) =
      time_of-read_bus (add_filing is_word fromisoformat out text) texts
      ∙ ap (λ known. newest_filing known texts)
          (time_of-add_to change tid out (filing_of is_word fromisoformat text) (time_in text))

  pub time_of-filed_complete_at :
      (texts : List String)
      → time_of tid (filed_complete_at is_word fromisoformat texts change)
        ≡ newest_filing none texts
  unfolding filed_complete_at filed_complete_by_change bucket time_of
  time_of-filed_complete_at texts = time_of-read_bus [] texts

  -- What is known of the task comes from a message that files it.
  pub newest_filing-files :
      (texts : List String) (t : Option ℕ)
      → newest_filing none texts ≡ some t
      → any files texts ≡ true
  newest_filing-files [] t e = ground arith
  newest_filing-files (text ∷ texts) t e = elim (Bool-cases (files text)) [
    | inl here ↦ rw here refl
    | inr there ↦
        let later : newest_filing none texts ≡ some t = rw there at e in
        ground (arith, there, newest_filing-files texts t later)
  ]

  abbrev weigh : String → Option (Option ℕ) → Option (Option ℕ)
  weigh text known = if files text then filed_on_top known (time_in text) else known

  weigh-swap :
      (a b : String) (known : Option (Option ℕ)) → weigh b (weigh a known) ≡ weigh a (weigh b known)
  weigh-swap a b known = elim (Bool-cases (files a)) [
    | inl x ↦ elim (Bool-cases (files b)) [
      | inl y ↦ rw (x, y) (ap some (newest-swap (join known) (time_in a) (time_in b)))
      | inr y ↦ rw (x, y) refl
    ]
    | inr x ↦ rw x refl
  ]

  newest_filing-perm :
      {l r : List String}
      → Permᴰ l r
      → (known : Option (Option ℕ)) → newest_filing known l ≡ newest_filing known r
  newest_filing-perm nil known = refl
  newest_filing-perm (cons {a} {b} {l₁} {l₂} e p) known =
      ap (λ x. newest_filing (weigh x known) l₁) e ∙ newest_filing-perm p (weigh b known)
  newest_filing-perm (swap {a} {b} {a'} {b'} {l} e f) known =
      ap (λ k. newest_filing k l) (weigh-swap a b known)
      ∙ ap (λ x. newest_filing (weigh x (weigh b known)) l) e
      ∙ ap (λ y. newest_filing (weigh b' (weigh y known)) l) f
  newest_filing-perm (trans p q) known = newest_filing-perm p known ∙ newest_filing-perm q known

  -- The order in which the files of the bus are read does not matter: the time under which a task of a
  -- change is filed is the same.
  pub filed_complete_at-perm :
      (l r : List String)
      → Perm l r
      → time_of tid (filed_complete_at is_word fromisoformat l change)
        ≡ time_of tid (filed_complete_at is_word fromisoformat r change)
  filed_complete_at-perm l r p =
      time_of-filed_complete_at l
      ∙ ∥∥₁_elim p (times_set (newest_filing none l) (newest_filing none r))
          (λ d. newest_filing-perm d none)
      ∙ sym (time_of-filed_complete_at r)
