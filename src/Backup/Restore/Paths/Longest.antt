-- ===== src/Backup/Restore/Paths/Longest.antt =====
-- An entry goes where the longest mapping of its path says, in whatever order mappings are given.
use mathlib.Core.List.{append-nil}
use prose_pod_server.Common.{
  ℕ, ◌≡◌, ◌≤◌, refl, ◌∙◌, ap, Option, none, some, List, [], ◌∷◌, ◌++◌, Text, All, length,
  strip_prefix, arith, ◌⊎◌, inl, inr, Option-cases,
}
use prose_pod_server.Common.Members.{IsIn}
use prose_pod_server.Backup.Store.{Result, ok}
use prose_pod_server.Backup.Restore.Paths.Order.{
  Mapping, IsDescending, All-sort_inv, sort-IsDescending, IsIn-sort_inv,
}
use prose_pod_server.Backup.Restore.Paths.{
  PathBuf, slash, trim_slash, PrefixMatch, exact, proper, different, match_suffix, match_prefix,
  apply_migrations, in_parent, on_match, find_destination, map_path, sort_by_len,
}

-- `path` names what is mapped, which is unpacked under its own name beside the destination, or
-- something below it, which is unpacked in the destination.
abbrev pub Lands : Mapping → Text → Text → PathBuf → Type 0
Lands m path name dir =
    (((path ≡ trim_slash m.0) ⊎ (path ≡ trim_slash m.0 ++ slash ∷ [])) × (m.1 ≡ name ∷ dir))
    ⊎ ((path ≡ trim_slash m.0 ++ slash ∷ name) × (dir ≡ m.1))

abbrev pub IsDifferent : Text → Mapping → Type 0
IsDifferent path m = match_prefix m.0 path ≡ different

abbrev pub IsNoLonger : Text → ℕ → Mapping → Type 0
IsNoLonger path n m = IsDifferent path m ⊎ (length m.0 ≤ n)

strip_prefix-append : (p s : Text) (r : Text) → strip_prefix p s ≡ some r → s ≡ p ++ r
unfolding strip_prefix
strip_prefix-append [] s r h = cc
strip_prefix-append (c ∷ p) [] r h = cc
strip_prefix-append (c ∷ p) (d ∷ s) r h = ground (arith, strip_prefix-append p s r)

match_suffix-exact : (s : Text) → match_suffix s ≡ exact → (s ≡ []) ⊎ (s ≡ slash ∷ [])
unfolding match_suffix
match_suffix-exact [] h = inl refl
match_suffix-exact (c ∷ []) h = inr (ground arith)
match_suffix-exact (c ∷ d ∷ s) h = ground arith

match_suffix-proper : (s r : Text) → match_suffix s ≡ proper r → s ≡ slash ∷ r
unfolding match_suffix
match_suffix-proper [] r h = cc
match_suffix-proper (c ∷ []) r h = ground arith
match_suffix-proper (c ∷ d ∷ s) r h = ground arith

match_prefix-exact :
    (from path : Text)
    → match_prefix from path ≡ exact
    → (path ≡ trim_slash from) ⊎ (path ≡ trim_slash from ++ slash ∷ [])
unfolding match_prefix
match_prefix-exact from path h = elim (Option-cases (strip_prefix (trim_slash from) path)) [
  | inl no_prefix ↦ absurd (ground arith)
  | inr (s, e) ↦
      let p : path ≡ trim_slash from ++ s = strip_prefix-append (trim_slash from) path s e in
      elim (match_suffix-exact s (ground arith)) [
        | inl nil ↦ inl (p ∙ ap (λ t. trim_slash from ++ t) nil ∙ append-nil (trim_slash from))
        | inr one ↦ inr (p ∙ ap (λ t. trim_slash from ++ t) one)
      ]
]

match_prefix-proper :
    (from path s : Text) → match_prefix from path ≡ proper s → path ≡ trim_slash from ++ slash ∷ s
unfolding match_prefix
match_prefix-proper from path r h = elim (Option-cases (strip_prefix (trim_slash from) path)) [
  | inl no_prefix ↦ absurd (ground arith)
  | inr (s, e) ↦
      strip_prefix-append (trim_slash from) path s e
      ∙ ap (λ t. trim_slash from ++ t) (match_suffix-proper s r (ground arith))
]

in_parent-ok :
    (to dir : PathBuf) (name : Text) → in_parent to ≡ ok (name, some dir) → to ≡ name ∷ dir
in_parent-ok [] dir name h = cc
in_parent-ok (c ∷ cs) dir name h = cc

in_parent-none : (to : PathBuf) (name : Text) → ¬ (in_parent to ≡ ok (name, none))
in_parent-none [] name h = cc
in_parent-none (c ∷ cs) name h = cc

All-IsNoLonger :
    (path : Text) (n : ℕ) (ms : List Mapping)
    → All (λ x. length x.0 ≤ n) ms
    → All (IsNoLonger path n) ms
All-IsNoLonger path n [] h = tt
All-IsNoLonger path n (m ∷ ms) h = (inr h.0, All-IsNoLonger path n ms h.1)

abbrev Found : List Mapping → Text → Text → PathBuf → Type 0
Found ms path name dir =
    (m : Mapping) × IsIn m ms × Lands m path name dir × All (IsNoLonger path (length m.0)) ms

on_match-some :
    (from path name : Text) (to dir : PathBuf) (rest : Result (Unit {0}) (Text × Option PathBuf))
    (r : PrefixMatch)
    → match_prefix from path ≡ r
    → on_match to rest r ≡ ok (name, some dir)
    → Lands (from, to) path name dir ⊎ (IsDifferent path (from, to) × (rest ≡ ok (name, some dir)))
unfolding on_match
on_match-some from path name to dir rest exact e h =
    inl (inl (match_prefix-exact from path e, in_parent-ok to dir name h))
on_match-some from path name to dir rest (proper s) e h =
    let same_name : s ≡ name = cc in
    inl (
      inr
        (match_prefix-proper from path s e ∙ ap (λ t. trim_slash from ++ slash ∷ t) same_name, cc))
on_match-some from path name to dir rest different e h = inr (e, h)

on_match-none :
    (from path name : Text) (to : PathBuf) (rest : Result (Unit {0}) (Text × Option PathBuf))
    (r : PrefixMatch)
    → match_prefix from path ≡ r
    → on_match to rest r ≡ ok (name, none)
    → IsDifferent path (from, to) × (rest ≡ ok (name, none))
unfolding on_match
on_match-none from path name to rest exact e h = absurd (in_parent-none to name h)
on_match-none from path name to rest (proper s) e h = cc
on_match-none from path name to rest different e h = (e, h)

find_destination-Found :
    (ms : List Mapping) (path name : Text) (dir : PathBuf)
    → IsDescending ms
    → find_destination ms path ≡ ok (name, some dir)
    → Found ms path name dir
unfolding find_destination
find_destination-Found [] path name dir desc h = cc
find_destination-Found ((from, to) ∷ ms) path name dir desc h =
    elim (on_match-some from path name to dir (find_destination ms path) (match_prefix from path)
      refl h) [
        | inl l ↦ (
          (from, to),
          inl refl,
          l,
          (inr (omega arith), All-IsNoLonger path (length from) ms desc.0),
        )
        | inr (e, h') ↦
            let (m, i, l, all) = find_destination-Found ms path name dir desc.1 h' in
            (m, inr i, l, (inl e, all))
      ]

find_destination-none :
    (ms : List Mapping) (path name : Text)
    → find_destination ms path ≡ ok (name, none)
    → (name ≡ path) × All (IsDifferent path) ms
unfolding find_destination
find_destination-none [] path name h = (cc, tt)
find_destination-none ((from, to) ∷ ms) path name h =
    let (e, h') =
      on_match-none from path name to (find_destination ms path) (match_prefix from path) refl h in
    let (same_path, all) = find_destination-none ms path name h' in (same_path, (e, all))

module _ (migrations : List (Text × Text)) (mappings : List Mapping) (path name : Text) where
  -- An entry of an archive that leaves the temporary directory, its path migrated, lands where one
  -- of the mappings says, and no mapping that matches is longer than that one, in whatever order
  -- they were given.
  pub map_path-Longest :
      (dir : PathBuf)
      → map_path migrations (sort_by_len mappings) path ≡ ok (name, some dir)
      → (m : Mapping) × IsIn m mappings
        × Lands m (apply_migrations migrations path) name dir
        × All (IsNoLonger (apply_migrations migrations path) (length m.0)) mappings
  unfolding map_path
  map_path-Longest dir h =
      let (m, i, l, all) =
        find_destination-Found (sort_by_len mappings) (apply_migrations migrations path) name dir
          (sort-IsDescending mappings) h in
      (m, IsIn-sort_inv m mappings i, l, All-sort_inv _ mappings all)

  -- An entry of an archive that stays in the temporary directory keeps its migrated path, and no
  -- mapping matches it.
  pub map_path_unmapped :
      map_path migrations (sort_by_len mappings) path ≡ ok (name, none)
      → (name ≡ apply_migrations migrations path)
        × All (IsDifferent (apply_migrations migrations path)) mappings
  unfolding map_path
  map_path_unmapped h =
      let (same_path, all) =
        find_destination-none (sort_by_len mappings) (apply_migrations migrations path) name h in
      (same_path, All-sort_inv _ mappings all)
