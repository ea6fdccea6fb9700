-- ===== src/Backup/Tar/Walk.antt =====
-- The walk over a directory visits each path below it once, in whatever order it queues them.
pub mod Estimate
mod Tests
use prose_pod_server.Common.{
  ℕ, zero, suc, ◌+◌, ◌*◌, ◌%◌, ◌≤◌, ◌<◌, ◌≡◌, refl, sym, ap, ◌∙◌, Option, none, some, List, [], ◌∷◌,
  ◌++◌, Text, u64_mod, add_u64, arith,
}
use prose_pod_server.Common.Results.{Result, ok, err}
use prose_pod_server.Backup.Tar.{
  Node, file, directory, other, missing, Entries, empty, entry, unreadable, IoError, io_error,
  of_file, of_directory, of_other, entry_size_at_path, join, add_entry, read_dir, Visit, failed,
  visited, queued, visit, continue, walk_queue, nodes, entries_nodes, walk,
}

-- A sum of sizes, of which one may be impossible to know.
unfoldable pub plus : Option ℕ → Option ℕ → Option ℕ
plus none b = none
plus (some a) none = none
plus (some a) (some b) = some (a + b)

-- The size of what stands at a path and below, by recursion on the tree.
mutual
  pub tree_size : Text → Text → Node → Option ℕ
  tree_size dst path (file len) = some (entry_size_at_path (join dst path) (of_file len))
  tree_size dst path (directory es) =
      plus (some (entry_size_at_path (join dst path) of_directory)) (entries_size dst path es)
  tree_size dst path other = some (entry_size_at_path (join dst path) of_other)
  tree_size dst path missing = none

  entries_size : Text → Text → Entries → Option ℕ
  entries_size dst path empty = some 0
  entries_size dst path (entry name node es) =
      plus (tree_size dst (join path name) node) (entries_size dst path es)
  entries_size dst path unreadable = none

-- A total with a size added to it, if it is known.
unfoldable pub outcome : ℕ → Option ℕ → Result IoError ℕ
outcome total none = err io_error
outcome total (some n) = ok (add_u64 total n)

pub plus_assoc : (a b c : Option ℕ) → plus (plus a b) c ≡ plus a (plus b c)
unfolding plus
plus_assoc none b c = refl
plus_assoc (some a) none c = refl
plus_assoc (some a) (some b) none = refl
plus_assoc (some a) (some b) (some c) = ap some (omega arith)

plus_zero : (a : Option ℕ) → plus (some 0) a ≡ a
unfolding plus
plus_zero none = refl
plus_zero (some a) = ap some (omega arith)

plus-none : (a : Option ℕ) → plus a none ≡ none
unfolding plus
plus-none none = refl
plus-none (some a) = refl

plus_comm : (a b : Option ℕ) → plus a b ≡ plus b a
unfolding plus
plus_comm none none = refl
plus_comm none (some b) = refl
plus_comm (some a) none = refl
plus_comm (some a) (some b) = ap some (omega arith)

pub outcome-add :
    (total n : ℕ) (a : Option ℕ) → outcome (add_u64 total n) a ≡ outcome total (plus (some n) a)
unfolding outcome plus
outcome-add total n none = refl
outcome-add total n (some k) = ap ok (omega arith)

module _ (dst : Text) where
  unfoldable queue_size : List (Text × Node) → Option ℕ
  queue_size [] = some 0
  queue_size ((path, node) ∷ q) = plus (tree_size dst path node) (queue_size q)

  unfoldable queue_nodes : List (Text × Node) → ℕ
  queue_nodes [] = 0
  queue_nodes ((path, node) ∷ q) = nodes node + queue_nodes q

  queue_size-append :
      (q r : List (Text × Node)) → queue_size (q ++ r) ≡ plus (queue_size q) (queue_size r)
  unfolding queue_size
  queue_size-append [] r = sym (plus_zero (queue_size r))
  queue_size-append (p ∷ q) r = rw (queue_size-append q r) (sym (plus_assoc _ (queue_size q) _))

  queue_nodes-append :
      (q r : List (Text × Node)) → queue_nodes (q ++ r) ≡ queue_nodes q + queue_nodes r
  unfolding queue_nodes
  queue_nodes-append [] r = omega arith
  queue_nodes-append (p ∷ q) r = omega (arith, queue_nodes-append q r)

  -- What the entries of a directory add, if they can be read, is what is queued for them.
  data Reads : Option ℕ → ℕ → Option (List (Text × Node)) → Type 0 where
    reads :
        {size : Option ℕ} {n : ℕ} (q : List (Text × Node))
        → queue_size q ≡ size
        → queue_nodes q ≡ n
        → Reads size n (some q)
    fails : {size : Option ℕ} {n : ℕ} → size ≡ none → Reads size n none

  add_entry-Reads :
      (path : Text) (node : Node) (size : Option ℕ) (n : ℕ) (q : Option (List (Text × Node)))
      → Reads size n q
      → Reads (plus (tree_size dst path node) size) (nodes node + n) (add_entry (path, node) q)
  unfolding queue_size queue_nodes
  add_entry-Reads path node size n _ (reads q h k) =
      reads ((path, node) ∷ q) (rw h refl) (omega arith)
  add_entry-Reads path node size n _ (fails h) = fails (rw h (plus-none _))

  read_dir-Reads :
      (path : Text) (es : Entries)
      → Reads (entries_size dst path es) (entries_nodes es) (read_dir path es)
  unfolding read_dir entries_size entries_nodes queue_size queue_nodes
  read_dir-Reads path empty = reads [] refl refl
  read_dir-Reads path (entry name node es) =
      add_entry-Reads (join path name) node _ _ _ (read_dir-Reads path es)
  read_dir-Reads path unreadable = fails refl

  data Visits : Option ℕ → ℕ → Visit → Type 0 where
    visits :
        {size : Option ℕ} {n e : ℕ} (q : List (Text × Node))
        → plus (some e) (queue_size q) ≡ size
        → suc (queue_nodes q) ≡ n
        → Visits size n (visited e q)
    visit_fails : {size : Option ℕ} {n : ℕ} → size ≡ none → Visits size n failed

  queued-Visits :
      (e : ℕ) (size : Option ℕ) (n : ℕ) (q : Option (List (Text × Node)))
      → Reads size n q
      → Visits (plus (some e) size) (suc n) (queued e q)
  queued-Visits e size n _ (reads q h k) = visits q (rw h refl) (rw k refl)
  queued-Visits e size n _ (fails h) = visit_fails (rw h (plus-none _))

  visit-Visits :
      (path : Text) (node : Node)
      → Visits (tree_size dst path node) (nodes node) (visit dst path node)
  unfolding visit tree_size nodes queue_size queue_nodes plus
  visit-Visits path (file len) = visits [] (ap some (omega arith)) refl
  visit-Visits path (directory es) = queued-Visits _ _ _ _ (read_dir-Reads path es)
  visit-Visits path other = visits [] (ap some (omega arith)) refl
  visit-Visits path missing = visit_fails refl

  -- The loop with enough fuel: what is queued is added to the total, in whatever order.
  abbrev Walks : (List (Text × Node) → ℕ → Option (Result IoError ℕ)) → ℕ → Type 0
  Walks run fuel =
      (q : List (Text × Node)) (total : ℕ)
      → queue_nodes q ≤ fuel
      → total < u64_mod
      → run q total ≡ some (outcome total (queue_size q))

  continue-Walks :
      (run : List (Text × Node) → ℕ → Option (Result IoError ℕ)) (fuel : ℕ)
      → Walks run fuel
      → (q : List (Text × Node)) (total : ℕ) (size : Option ℕ) (n : ℕ) (v : Visit) → Visits size n v
      → n + queue_nodes q ≤ suc fuel
      → continue run q total v ≡ some (outcome total (plus size (queue_size q)))
  unfolding outcome plus
  continue-Walks run fuel walks q total size n _ (visits {e = e} r h k) l =
      walks (q ++ r) (add_u64 total e) (omega (arith, queue_nodes-append q r, k)) (omega arith)
      ∙ ap some (
          ap (outcome (add_u64 total e)) (queue_size-append q r ∙ plus_comm _ _)
          ∙ outcome-add total e _
          ∙ ap (outcome total) (sym (plus_assoc (some e) _ _) ∙ ap (λ z. plus z (queue_size q)) h))
  continue-Walks run fuel walks q total size n _ (visit_fails h) l = rw h refl

  nodes-positive : (node : Node) → 0 < nodes node
  unfolding nodes
  nodes-positive (file len) = omega arith
  nodes-positive (directory es) = omega arith
  nodes-positive other = omega arith
  nodes-positive missing = omega arith

  walk_queue-Walks : (fuel : ℕ) → Walks (walk_queue fuel dst) fuel
  unfolding walk_queue queue_size queue_nodes outcome
  walk_queue-Walks fuel [] total l h = ap some (ap ok (omega arith))
  walk_queue-Walks zero ((path, node) ∷ q) total l h = absurd (omega (arith, nodes-positive node))
  walk_queue-Walks (suc fuel) ((path, node) ∷ q) total l h =
      continue-Walks _ fuel (walk_queue-Walks fuel) q total _ _ _ (visit-Visits path node) l

pub walk-outcome :
    (node : Node) (dst : Text) → walk node dst ≡ some (outcome 0 (tree_size dst [] node))
unfolding walk queue_size queue_nodes
walk-outcome node dst =
    walk_queue-Walks dst (nodes node) (([], node) ∷ []) 0 (omega arith) (omega arith)
    ∙ ap (λ z. some (outcome 0 z)) (plus_comm _ _ ∙ plus_zero _)
