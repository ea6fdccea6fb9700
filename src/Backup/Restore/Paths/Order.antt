-- ===== src/Backup/Restore/Paths/Order.antt =====
-- The order in which mappings are tried: the longer prefixes first.
use prose_pod_server.Common.{
  ℕ, ◌≤◌, List, [], ◌∷◌, Text, All, length, ltb, arith, inl, inr, Bool-cases,
}
use prose_pod_server.Common.Members.{IsIn}
use prose_pod_server.Backup.Restore.Paths.{PathBuf, insert_by_len, sort_by_len}

abbrev pub Mapping : Type 0
Mapping = Text × PathBuf

abbrev pub IsDescending : List Mapping → Type 0
IsDescending [] = Unit
IsDescending (m ∷ ms) = All (λ x. length x.0 ≤ length m.0) ms × IsDescending ms

All-insert :
    (P : Mapping → Type 0) (m : Mapping) (ms : List Mapping)
    → P m
    → All P ms
    → All P (insert_by_len m ms)
unfolding insert_by_len
All-insert P m [] h k = (h, tt)
All-insert P m (x ∷ xs) h k = elim (Bool-cases (ltb (length m.0) (length x.0))) [
  | inl less ↦ rw less (k.0, All-insert P m xs h k.1)
  | inr no_less ↦ rw no_less (h, k)
]

All-insert_inv :
    (P : Mapping → Type 0) (m : Mapping) (ms : List Mapping)
    → All P (insert_by_len m ms)
    → P m × All P ms
unfolding insert_by_len
All-insert_inv P m [] k = k
All-insert_inv P m (x ∷ xs) k = elim (Bool-cases (ltb (length m.0) (length x.0))) [
  | inl less ↦
      let k' : P x × All P (insert_by_len m xs) = simp less at k in
      let (h, rest) = All-insert_inv P m xs k'.1 in (h, (k'.0, rest))
  | inr no_less ↦ simp no_less at k
]

pub All-sort_inv : (P : Mapping → Type 0) (ms : List Mapping) → All P (sort_by_len ms) → All P ms
unfolding sort_by_len
All-sort_inv P [] k = tt
All-sort_inv P (m ∷ ms) k =
    let (h, rest) = All-insert_inv P m (sort_by_len ms) k in (h, All-sort_inv P ms rest)

All-at_most_trans :
    (a b : ℕ) (ms : List Mapping)
    → a ≤ b
    → All (λ x. length x.0 ≤ a) ms
    → All (λ x. length x.0 ≤ b) ms
All-at_most_trans a b [] h k = tt
All-at_most_trans a b (m ∷ ms) h k = (omega arith, All-at_most_trans a b ms h k.1)

insert-IsDescending :
    (m : Mapping) (ms : List Mapping) → IsDescending ms → IsDescending (insert_by_len m ms)
unfolding insert_by_len
insert-IsDescending m [] h = (tt, tt)
insert-IsDescending m (x ∷ xs) h = elim (Bool-cases (ltb (length m.0) (length x.0))) [
  | inl less ↦ rw less (All-insert _ m xs (ground arith) h.0, insert-IsDescending m xs h.1)
  | inr no_less ↦
      let le : length x.0 ≤ length m.0 = ground arith in
      rw no_less ((le, All-at_most_trans (length x.0) (length m.0) xs le h.0), h)
]

pub sort-IsDescending : (ms : List Mapping) → IsDescending (sort_by_len ms)
unfolding sort_by_len
sort-IsDescending [] = tt
sort-IsDescending (m ∷ ms) = insert-IsDescending m (sort_by_len ms) (sort-IsDescending ms)

IsIn-insert_inv :
    (a m : Mapping) (ms : List Mapping) → IsIn a (insert_by_len m ms) → IsIn a (m ∷ ms)
unfolding insert_by_len
IsIn-insert_inv a m [] i = i
IsIn-insert_inv a m (x ∷ xs) i = elim (Bool-cases (ltb (length m.0) (length x.0))) [
  | inl less ↦
      let i' : IsIn a (x ∷ insert_by_len m xs) = simp less at i in
      elim i' [
        | inl here ↦ inr (inl here)
        | inr there ↦ elim (IsIn-insert_inv a m xs there) [ inl e ↦ inl e | inr k ↦ inr (inr k) ]
      ]
  | inr no_less ↦ simp no_less at i
]

pub IsIn-sort_inv : (a : Mapping) (ms : List Mapping) → IsIn a (sort_by_len ms) → IsIn a ms
unfolding sort_by_len
IsIn-sort_inv a [] i = i
IsIn-sort_inv a (m ∷ ms) i = elim (IsIn-insert_inv a m (sort_by_len ms) i) [
  | inl e ↦ inl e
  | inr k ↦ inr (IsIn-sort_inv a ms k)
]
