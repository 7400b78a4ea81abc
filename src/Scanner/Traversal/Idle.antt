-- ===== src/Scanner/Traversal/Idle.antt =====
-- internal/scanner/engine.go: the workers around the queue of directories.
use twin_tidy.Base.{ℕ, suc, ◌+◌, ◌≤◌, ◌≡◌, false, List, [], ◌∷◌, length, arith, nat_eq}
use twin_tidy.Scanner.Traversal.{
  DirectoryQueue, waits, stops, hands_out, new_directory_queue, last_first, add, next, done,
  close_queue,
}

-- The queue with the number of workers that hold a directory.
pub record System (A : Type 0) : Type 0 where
  pub queue : DirectoryQueue A
  pub working : ℕ

-- What may happen: a worker takes a directory, a worker that holds one adds another or is done with
-- its own, or the scan is cancelled.
pub data Step {A : Type 0} : System A → System A → Type 0 where
  takes :
      {q q' : DirectoryQueue A} {n : ℕ} (dir : A)
      → next q ≡ hands_out dir q'
      → Step (record { queue = q; working = n }) (record { queue = q'; working = suc n })
  adds :
      {q : DirectoryQueue A} {n : ℕ} (dir : A)
      → Step
          (record { queue = q; working = suc n })
          (record { queue = (add q dir).0; working = suc n })
  finishes :
      {q : DirectoryQueue A} {n : ℕ}
      → Step (record { queue = q; working = suc n }) (record { queue = done q; working = n })
  closes :
      {q : DirectoryQueue A} {n : ℕ}
      → Step (record { queue = q; working = n }) (record { queue = close_queue q; working = n })

-- The states that a scan of the roots may reach.
pub data Reachable {A : Type 0} (roots : List A) : System A → Type 0 where
  starts : Reachable roots (record { queue = new_directory_queue roots; working = 0 })
  moves : {s t : System A} → Reachable roots s → Step s t → Reachable roots t

-- `pending` counts the directories that wait and those that a worker holds.
IsCounted : {A : Type 0} → System A → Type 0
IsCounted s = s.queue.pending ≡ length s.queue.dirs + s.working

length-last_first :
    {A : Type 0} (dirs taken : List A) → length (last_first dirs taken) ≡ length dirs + length taken
unfolding last_first
length-last_first [] taken = omega arith
length-last_first (d ∷ dirs) taken = omega (arith, length-last_first dirs (d ∷ taken))

Step-IsCounted : {A : Type 0} (s t : System A) → Step s t → IsCounted s → IsCounted t
unfolding IsCounted next add done close_queue
Step-IsCounted s t (takes dir e) h = ground arith
Step-IsCounted s t (adds dir) h = ground arith
Step-IsCounted s t finishes h = ground arith
Step-IsCounted s t closes h = h

Reachable-IsCounted : {A : Type 0} (roots : List A) (s : System A) → Reachable roots s → IsCounted s
unfolding IsCounted new_directory_queue
Reachable-IsCounted roots s starts = omega (arith, length-last_first roots [])
Reachable-IsCounted roots s (moves {s = r} before step) =
    Step-IsCounted r s step (Reachable-IsCounted roots r before)

-- In every reachable state, a worker is told to stop only after a cancellation or when no directory
-- waits and no worker holds one; and a worker waits only while another one holds a directory, so
-- that the workers never all wait.
pub next-idle :
    {A : Type 0} (roots : List A) (s : System A)
    → Reachable roots s
    → (next s.queue ≡ stops → s.queue.closed ≡ false → (s.queue.dirs ≡ []) × (s.working ≡ 0))
      × (next s.queue ≡ waits → 1 ≤ s.working)
unfolding next IsCounted
next-idle roots s r =
    let counted = Reachable-IsCounted roots s r in ((λ e open'. ground arith), (λ e. ground arith))
