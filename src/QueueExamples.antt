-- ===== src/QueueExamples.antt =====
-- A concrete queue with one thread: the theorems on the queue at it.
use nat.Prelude.{[], ◌≡◌, refl, true, false, ◌++◌, arith}
use nat.DispatchQueue.{
  DispatchQueue, waiting, Reach, here, next, pushes, wakes, create, dispatch, shut_down, wake,
  may_wake,
}
use nat.DispatchQueue.Fifo.{Reach-IsFifo, Reach-started-closed}
use nat.DispatchQueue.Closing.{AllReturned, all_return, starts_all}

abbrev filled : DispatchQueue
filled = dispatch 5 create

taken : Reach 1 create (wake 0 filled)
unfolding dispatch create may_wake
taken = next (next here (pushes 5)) (wakes 0 (omega arith) refl refl)

Reach-IsFifo_example : (wake 0 filled).dispatched ≡ (wake 0 filled).started ++ (wake 0 filled).queue
Reach-IsFifo_example = Reach-IsFifo taken

dropped : Reach 1 (shut_down filled) (wake 0 (shut_down filled))
unfolding shut_down dispatch create may_wake
dropped = next here (wakes 0 (omega arith) refl refl)

quits : (shut_down filled).quit ≡ true
unfolding shut_down
quits = refl

Reach-started-closed_example :
    ((wake 0 (shut_down filled)).started ≡ (shut_down filled).started)
    × ((wake 0 (shut_down filled)).quit ≡ true)
Reach-started-closed_example = Reach-started-closed dropped quits

all_return_example : (t : DispatchQueue) × Reach 3 (shut_down filled) t × AllReturned 3 t.threads
all_return_example = all_return {n = 3} (shut_down filled) quits

idle : filled.threads 0 ≡ waiting
unfolding dispatch create
idle = refl

open_queue : filled.quit ≡ false
unfolding dispatch create
open_queue = refl

starts_all_example :
    (t : DispatchQueue) × Reach 1 filled t
    × (t.queue ≡ [])
    × (t.started ≡ filled.started ++ filled.queue)
    × (t.dispatched ≡ filled.dispatched)
    × (t.quit ≡ false)
starts_all_example = starts_all {n = 1} 0 filled (omega arith) idle open_queue
