-- ===== src/DispatchQueue/Fifo.antt =====
-- In which order tasks start (dispatchqueue.cpp), and when no more do.
use mathlib.Core.List.{append_assoc}
use nat.Prelude.{ℕ, ◌≡◌, refl, ap, ◌∙◌, true, List, [], ◌∷◌, ◌++◌, arith}
use nat.DispatchQueue.{
  DispatchQueue, Step, pushes, wakes, completes, closes, Reach, here, next, create, dispatch,
  shut_down, loop_test, wake,
}

abbrev pub IsFifo : DispatchQueue → Type 0
IsFifo q = q.dispatched ≡ q.started ++ q.queue

wake_queue :
    (i : ℕ) (q : DispatchQueue) (ops : List ℕ) → q.queue ≡ ops → IsFifo q → IsFifo (wake i q)
unfolding wake
wake_queue i q [] e f = ground (arith)
wake_queue i q (op ∷ rest) e f = ground (arith, append_assoc q.started (op ∷ []) rest)

pub Step-IsFifo : {n : ℕ} {p q : DispatchQueue} → Step n p q → IsFifo p → IsFifo q
unfolding dispatch shut_down loop_test
Step-IsFifo (pushes {q = q} op) f =
    ap (λ l. l ++ op ∷ []) f ∙ append_assoc q.started q.queue (op ∷ [])
Step-IsFifo (wakes {q = q} i lt w m) f = wake_queue i q q.queue refl f
Step-IsFifo (completes i op lt r) f = f
Step-IsFifo closes f = f

-- In every reachable state the tasks dispatched so far are those that were started, in the same
-- order, and then those that still wait in the queue.
pub Reach-IsFifo :
    {n : ℕ} {q : DispatchQueue} → Reach n create q → q.dispatched ≡ q.started ++ q.queue
unfolding create
Reach-IsFifo here = refl
Reach-IsFifo (next r st) = Step-IsFifo st (Reach-IsFifo r)

-- Once the queue is shut down no step starts a task.
pub Step-started-closed :
    {n : ℕ} {p q : DispatchQueue}
    → Step n p q
    → p.quit ≡ true
    → (q.started ≡ p.started) × (q.quit ≡ true)
unfolding dispatch shut_down loop_test wake
Step-started-closed (pushes op) e = (refl, e)
Step-started-closed (wakes {q = q} i lt w m) e = ground arith
Step-started-closed (completes i op lt r) e = (refl, e)
Step-started-closed closes e = (refl, refl)

-- After the destructor has set `quit_`, whatever the threads do, no further task starts: what is in
-- the queue then is dropped.
pub Reach-started-closed :
    {n : ℕ} {p q : DispatchQueue}
    → Reach n p q
    → p.quit ≡ true
    → (q.started ≡ p.started) × (q.quit ≡ true)
Reach-started-closed here e = (refl, e)
Reach-started-closed (next r st) e =
    let (a, b) = Reach-started-closed r e in let (c, d) = Step-started-closed st b in (c ∙ a, d)
