-- ===== src/OwnerPaths/Resolve/Specificity.antt =====
-- The most specific pattern wins, and among equally long ones the first.
use otaman_core.Prelude.{
  ℕ, String, true, false, Option, none, some, List, [], ◌∷◌, ◌++◌, ok, err, ◌≡◌, ◌≢◌, refl, ◌⊎◌,
  inl, inr, ◌≤◌, ◌<◌, All, arith, ltb, text_length, strip, Bool-cases, ap,
}
use otaman_core.OwnerPaths.{RepoConfig, PlatformConfig, get_repo}
use otaman_core.OwnerPaths.Glob.{path_matches}
use otaman_core.OwnerPaths.Resolve.{
  unknown_repo, best_match, chosen, owner_in, resolve_owner_for_path,
}

module _ (path : String) where
  -- Every pattern of the list that matches is shorter than `n`; or no longer than `n`.
  abbrev pub Shorter : ℕ → List (String × String) → Type 0
  Shorter n = All (λ e. path_matches path e.0 ≡ true → text_length e.0 < n)

  abbrev pub NoLonger : ℕ → List (String × String) → Type 0
  NoLonger n = All (λ e. path_matches path e.0 ≡ true → text_length e.0 ≤ n)

  abbrev pub NoneMatch : List (String × String) → Type 0
  NoneMatch = All (λ e. path_matches path e.0 ≡ false)

  -- The entry `(pattern, agent)` of the list wins.
  pub record Wins (entries : List (String × String)) (n : ℕ) (agent : String) : Type 0 where
    pub before : List (String × String)
    pub after : List (String × String)
    pub pattern : String
    pub listed : entries ≡ before ++ (pattern, agent) ∷ after
    pub matches : path_matches path pattern ≡ true
    pub size : text_length pattern ≡ n
    pub first : Shorter n before
    pub longest : NoLonger n after

  Wins-cons :
      {es : List (String × String)} {n : ℕ} {a : String} (p b : String)
      → (path_matches path p ≡ true → text_length p < n)
      → Wins es n a
      → Wins ((p, b) ∷ es) n a
  Wins-cons p b h w = record {
    before = (p, b) ∷ w.before;
    after = w.after;
    pattern = w.pattern;
    listed = ap (λ l. (p, b) ∷ l) w.listed;
    matches = w.matches;
    size = w.size;
    first = (h, w.first);
    longest = w.longest;
  }

  Wins-head :
      (es : List (String × String)) (p a : String)
      → path_matches path p ≡ true
      → NoLonger (text_length p) es
      → Wins ((p, a) ∷ es) (text_length p) a
  Wins-head es p a h k = record {
    before = [];
    after = es;
    pattern = p;
    listed = refl;
    matches = h;
    size = refl;
    first = tt;
    longest = k;
  }

  -- From a best so far: it stays, or a strictly longer entry wins.
  abbrev Improves : List (String × String) → ℕ → String → ℕ → String → Type 0
  Improves es m b n a = ((n ≡ m) × (a ≡ b) × NoLonger m es) ⊎ ((m < n) × Wins es n a)

  skip_entry :
      (es : List (String × String)) (p c : String) (m : ℕ) (b : String) (n : ℕ) (a : String)
      → (path_matches path p ≡ true → text_length p ≤ m)
      → Improves es m b n a
      → Improves ((p, c) ∷ es) m b n a
  skip_entry es p c m b n a h (inl (e, f, k)) = inl (e, f, (h, k))
  skip_entry es p c m b n a h (inr (lt, w)) = inr (lt, Wins-cons p c (λ q. omega (arith, h q)) w)

  take_entry :
      (es : List (String × String)) (p c : String) (m : ℕ) (b : String) (n : ℕ) (a : String)
      → path_matches path p ≡ true
      → m < text_length p
      → Improves es (text_length p) c n a
      → Improves ((p, c) ∷ es) m b n a
  take_entry es p c m b n a h lt (inl (e, f, k)) = inr (rw e lt, rw (e, f) (Wins-head es p c h k))
  take_entry es p c m b n a h lt (inr (gt, w)) = inr (omega arith, Wins-cons p c (λ _. gt) w)

  best_match-Improves :
      (es : List (String × String)) (m : ℕ) (b : String) (n : ℕ) (a : String)
      → best_match path es (some (m, b)) ≡ some (n, a)
      → Improves es m b n a
  unfolding best_match
  best_match-Improves [] m b n a h = inl (ground arith, ground arith, tt)
  best_match-Improves ((p, c) ∷ es) m b n a h = elim (Bool-cases (path_matches path p)) [
    | inl hit ↦ elim (Bool-cases (ltb m (text_length p))) [
      | inl longer ↦
          take_entry es p c m b n a hit (ground arith)
            (best_match-Improves es (text_length p) c n a (rw (hit, longer) at h))
      | inr shorter ↦
          skip_entry es p c m b n a (λ _. ground arith)
            (best_match-Improves es m b n a (rw (hit, shorter) at h))
    ]
    | inr miss ↦ skip_entry es p c m b n a (λ q. cc) (best_match-Improves es m b n a (rw miss at h))
  ]

  best_match_kept :
      (es : List (String × String)) (m : ℕ) (b : String) → best_match path es (some (m, b)) ≢ none
  unfolding best_match
  best_match_kept [] m b h = cc
  best_match_kept ((p, c) ∷ es) m b h =
      ground (arith, best_match_kept es m b, best_match_kept es (text_length p) c)

  best_match-none : (es : List (String × String)) → best_match path es none ≡ none → NoneMatch es
  unfolding best_match
  best_match-none [] h = tt
  best_match-none ((p, c) ∷ es) h = elim (Bool-cases (path_matches path p)) [
    | inl hit ↦ absurd (best_match_kept es (text_length p) c (rw hit at h))
    | inr miss ↦ (miss, best_match-none es (rw miss at h))
  ]

  best_match-some :
      (es : List (String × String)) (n : ℕ) (a : String)
      → best_match path es none ≡ some (n, a)
      → Wins es n a
  unfolding best_match
  best_match-some [] n a h = absurd (ground arith)
  best_match-some ((p, c) ∷ es) n a h = elim (Bool-cases (path_matches path p)) [
    | inl hit ↦ elim (best_match-Improves es (text_length p) c n a (rw hit at h)) [
      | inl (e, f, k) ↦ rw (e, f) (Wins-head es p c hit k)
      | inr (gt, w) ↦ Wins-cons p c (λ _. gt) w
    ]
    | inr miss ↦ Wins-cons p c (λ q. cc) (best_match-some es n a (rw miss at h))
  ]

-- Who owns a path of a repo: the catch-all, if no pattern matches, or the winning entry.
abbrev pub Owns : String → RepoConfig → String → Type 0
Owns path repo agent =
    (NoneMatch path repo.owner_paths × (agent ≡ repo.owner))
    ⊎ ((n : ℕ) × Wins path repo.owner_paths n agent)

best-Owns :
    (path : String) (repo : RepoConfig) (best : Option (ℕ × String))
    → best_match path repo.owner_paths none ≡ best
    → Owns path repo (chosen best repo.owner)
best-Owns path repo none h = inl (best_match-none path repo.owner_paths h, refl)
best-Owns path repo (some (n, a)) h = inr (n, best_match-some path repo.owner_paths n a h)

pub resolve_owner_for_path_cases :
    (platform : PlatformConfig) (repo_name path : String)
    → ((repo : RepoConfig)
        → get_repo platform repo_name ≡ some repo
        → (agent : String) × (resolve_owner_for_path platform repo_name path ≡ ok (strip agent))
          × Owns path repo agent)
      × (get_repo platform repo_name ≡ none
          → resolve_owner_for_path platform repo_name path ≡ err (unknown_repo repo_name))
unfolding resolve_owner_for_path owner_in
resolve_owner_for_path_cases platform repo_name path = (
  λ repo found. (
    chosen (best_match path repo.owner_paths none) repo.owner,
    rw found,
    best-Owns path repo (best_match path repo.owner_paths none) refl,
  ),
  λ missing. rw missing,
)

-- In a declared repo the resolution of any path succeeds, with the longest matching pattern's agent,
-- of the first such pattern, or with the catch-all owner when none matches; surrounding space is
-- dropped.
pub resolve_owner_for_path-Owns :
    (platform : PlatformConfig) (repo_name path : String) (repo : RepoConfig)
    → get_repo platform repo_name ≡ some repo
    → (agent : String) × (resolve_owner_for_path platform repo_name path ≡ ok (strip agent))
      × Owns path repo agent
resolve_owner_for_path-Owns platform repo_name path repo found =
    (resolve_owner_for_path_cases platform repo_name path).0 repo found
