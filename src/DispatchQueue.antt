-- ===== src/DispatchQueue.antt =====
-- dispatchqueue.hpp and dispatchqueue.cpp: a queue of tasks and the threads that run them. What a
-- thread does while it holds the mutex is one step. Tasks are numbers.
pub mod Fifo
pub mod Closing
use nat.Prelude.{ℕ, ◌<◌, ◌≡◌, ◌≢◌, Bool, true, false, List, [], ◌∷◌, ◌++◌, if◌then◌else◌, ◌==◌}

-- A thread waits on the condition variable, runs a task without the mutex, or has returned.
pub data Phase : Type 0 where
  waiting : Phase
  running : ℕ → Phase
  returned : Phase

-- `dispatched` and `started` record the tasks pushed and popped so far, in order.
pub record DispatchQueue : Type 0 where
  pub queue : List ℕ
  pub quit : Bool
  pub threads : ℕ → Phase
  pub dispatched : List ℕ
  pub started : List ℕ

unfoldable pub create : DispatchQueue
create = record { queue = []; quit = false; threads = λ _. waiting; dispatched = []; started = [] }

unfoldable pub set_phase : (ℕ → Phase) → ℕ → Phase → ℕ → Phase
set_phase f i p j = if i == j then p else f j

-- `dispatch`: push under the mutex.
unfoldable pub dispatch : ℕ → DispatchQueue → DispatchQueue
dispatch op q = record q { queue = q.queue ++ op ∷ []; dispatched = q.dispatched ++ op ∷ [] }

-- The destructor's first part.
unfoldable pub shut_down : DispatchQueue → DispatchQueue
shut_down q = record q { quit = true }

-- The test at the end of the loop, `while (!quit_)`.
unfoldable pub loop_test : ℕ → DispatchQueue → DispatchQueue
unfolding set_phase
loop_test i q = record q { threads = set_phase q.threads i (if q.quit then returned else waiting) }

-- The wait of thread `i` has returned: it takes the front task unless it is to quit.
unfoldable pub wake : ℕ → DispatchQueue → DispatchQueue
unfolding set_phase loop_test
wake i q = if q.quit then loop_test i q else elim q.queue [
  | [] ↦ loop_test i q
  | op ∷ rest ↦ record q {
    queue = rest;
    started = q.started ++ op ∷ [];
    threads = set_phase q.threads i (running op);
  }
]

-- The predicate of the wait, `q_.size() || quit_`.
unfoldable pub may_wake : DispatchQueue → Bool
may_wake q = elim q.queue [ [] ↦ q.quit | op ∷ rest ↦ true ]

-- The steps of `n` threads, and of the code that owns the queue.
pub data Step (n : ℕ) : DispatchQueue → DispatchQueue → Type 0 where
  pushes : {q : DispatchQueue} (op : ℕ) → Step n q (dispatch op q)
  wakes :
      {q : DispatchQueue} (i : ℕ)
      → i < n
      → q.threads i ≡ waiting
      → may_wake q ≡ true
      → Step n q (wake i q)
  completes :
      {q : DispatchQueue} (i op : ℕ) → i < n → q.threads i ≡ running op → Step n q (loop_test i q)
  closes : {q : DispatchQueue} → Step n q (shut_down q)

pub data Reach (n : ℕ) (p : DispatchQueue) : DispatchQueue → Type 0 where
  here : Reach n p p
  next : {q r : DispatchQueue} → Reach n p q → Step n q r → Reach n p r
