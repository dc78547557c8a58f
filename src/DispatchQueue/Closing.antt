-- ===== src/DispatchQueue/Closing.antt =====
-- How the threads of a queue (dispatchqueue.cpp) take up tasks, and how they return.
use nat.Prelude.{
  ℕ, zero, suc, ◌<◌, ◌≡◌, refl, sym, ap, ◌∙◌, true, false, List, [], ◌∷◌, ◌++◌, ◌==◌, ==_iff,
  if◌then◌else◌, arith, Bool-cases, ◌⊎◌, inl, inr, Bool,
}
use mathlib.Core.List.{append_assoc, append-nil}
use nat.DispatchQueue.{
  Phase, waiting, running, returned, DispatchQueue, Step, wakes, completes, Reach, here, next,
  set_phase, loop_test, wake, may_wake,
}

Reach-append : {n : ℕ} {p q r : DispatchQueue} → Reach n p q → Reach n q r → Reach n p r
Reach-append a here = a
Reach-append a (next b st) = next (Reach-append a b) st

loop_test_quit :
    (i j : ℕ) (q : DispatchQueue)
    → q.quit ≡ true
    → (loop_test i q).threads j ≡ (if i == j then returned else q.threads j)
unfolding loop_test set_phase
loop_test_quit i j q e = ground arith

wake_quit : (i : ℕ) (q : DispatchQueue) → q.quit ≡ true → wake i q ≡ loop_test i q
unfolding wake
wake_quit i q e = rw e refl

may_wake_quit : (q : DispatchQueue) → q.quit ≡ true → may_wake q ≡ true
unfolding may_wake
may_wake_quit q e = go q.queue
  where
    go : (ops : List ℕ) → elim ops as (λ x. Bool) [ [] ↦ q.quit | op ∷ rest ↦ true ] ≡ true
    go [] = e
    go (op ∷ rest) = refl

Phase-cases : (x : Phase) → (x ≡ waiting) ⊎ (((op : ℕ) × (x ≡ running op)) ⊎ (x ≡ returned))
Phase-cases waiting = inl refl
Phase-cases (running op) = inr (inl (op, refl))
Phase-cases returned = inr (inr refl)

-- What a queue is like after thread `i` of a closed one has returned.
record Returned (n i : ℕ) (q t : DispatchQueue) : Type 0 where
  pub way : Reach n q t
  pub closed : t.quit ≡ true
  pub threads : (j : ℕ) → t.threads j ≡ (if i == j then returned else q.threads j)

stays_returned :
    (i j : ℕ) (q : DispatchQueue)
    → q.threads i ≡ returned
    → q.threads j ≡ (if i == j then returned else q.threads j)
stays_returned i j q h = elim (Bool-cases (i == j)) [
  | inl e ↦ rw e (ap q.threads (sym ((==_iff i j).0 e)) ∙ h)
  | inr e ↦ rw e refl
]

one_returns :
    {n : ℕ} (i : ℕ) (q : DispatchQueue)
    → i < n
    → q.quit ≡ true
    → (t : DispatchQueue) × Returned n i q t
unfolding loop_test
one_returns i q small closed = elim (Phase-cases (q.threads i)) [
  | inl w ↦ (
    wake i q,
    record {
      way = next here (wakes i small w (may_wake_quit q closed));
      closed = rw (wake_quit i q closed) closed;
      threads = λ j. rw (wake_quit i q closed) (loop_test_quit i j q closed);
    },
  )
  | inr (inl (op, r)) ↦ (
    loop_test i q,
    record {
      way = next here (completes i op small r);
      closed = closed;
      threads = λ j. loop_test_quit i j q closed;
    },
  )
  | inr (inr d) ↦ (q, record { way = here; closed = closed; threads = λ j. stays_returned i j q d })
]

returned_up_to :
    (k : ℕ) (t u : DispatchQueue)
    → ((j : ℕ) → j < k → t.threads j ≡ returned)
    → ((j : ℕ) → u.threads j ≡ (if k == j then returned else t.threads j))
    → (j : ℕ) → j < suc k
    → u.threads j ≡ returned
returned_up_to k t u before new j h = elim (Bool-cases (k == j)) [
  | inl e ↦ rw (new j, e) refl
  | inr e ↦ rw (new j, e) (before j (ground (arith, h, e)))
]

some_return :
    {n : ℕ} (k : ℕ) (q : DispatchQueue)
    → k < suc n
    → q.quit ≡ true
    → (t : DispatchQueue) × Reach n q t
      × (t.quit ≡ true)
      × ((j : ℕ) → j < k → t.threads j ≡ returned)
some_return zero q small closed = (q, here, closed, λ j h. absurd (omega (arith, h)))
some_return {n} (suc k) q small closed =
    let fewer : k < suc n = omega (arith, small) in
    let this : k < n = omega (arith, small) in
    let (t, way, quit, before) = some_return {n = n} k q fewer closed in
    let (u, r) = one_returns {n = n} k t this quit in
    (u, Reach-append way r.way, r.closed, returned_up_to k t u before r.threads)

-- The threads below `n` have all returned.
abbrev pub AllReturned : ℕ → (ℕ → Phase) → Type 0
AllReturned zero threads = Unit
AllReturned (suc n) threads = (threads n ≡ returned) × AllReturned n threads

AllReturned-below :
    (n : ℕ) (threads : ℕ → Phase) → ((j : ℕ) → j < n → threads j ≡ returned) → AllReturned n threads
AllReturned-below zero threads h = tt
AllReturned-below (suc n) threads h =
    (h n (omega arith), AllReturned-below n threads (λ j l. h j (omega (arith, l))))

-- From every state in which `quit_` is set the threads have a way to return, all of them, so that the
-- destructor's joins can come to an end.
pub all_return :
    {n : ℕ} (q : DispatchQueue)
    → q.quit ≡ true
    → (t : DispatchQueue) × Reach n q t × AllReturned n t.threads
all_return {n} q closed =
    let (t, way, quit, done) = some_return n q (omega arith) closed in
    (t, way, AllReturned-below n t.threads done)

-- What the queue is like once everything in it has been started.
record Drained (n : ℕ) (ops : List ℕ) (q t : DispatchQueue) : Type 0 where
  pub way : Reach n q t
  pub empty : t.queue ≡ []
  pub in_order : t.started ≡ q.started ++ ops
  pub same : t.dispatched ≡ q.dispatched
  pub stays_open : t.quit ≡ false

Reach-before : {n : ℕ} {p q r : DispatchQueue} → Step n p q → Reach n q r → Reach n p r
Reach-before st r = Reach-append (next here st) r

-- One task after the other, all in thread `i`.
drains :
    {n : ℕ} (i : ℕ) (ops : List ℕ) (q : DispatchQueue)
    → i < n
    → q.threads i ≡ waiting
    → q.quit ≡ false
    → q.queue ≡ ops
    → (t : DispatchQueue) × Drained n ops q t
unfolding wake may_wake loop_test set_phase
drains i [] q small w o e = (
  q,
  record {
    way = here;
    empty = e;
    in_order = sym (append-nil q.started);
    same = refl;
    stays_open = o;
  },
)
drains {n} i (op ∷ ops) q small w o e =
    let taken = wake i q in
    let (t, d) =
      drains {n = n} i ops (loop_test i taken) small (rw (o, e, (==_iff i i).1 refl, o) refl)
        (rw (o, e) o) (rw (o, e) refl) in
    (
      t,
      record {
        way =
            Reach-before (wakes i small w (rw e refl))
              (Reach-before (completes i op small (rw (o, e, (==_iff i i).1 refl) refl)) d.way);
        empty = d.empty;
        in_order = d.in_order ∙ (rw (o, e) (append_assoc q.started (op ∷ []) ops));
        same = d.same ∙ rw (o, e) refl;
        stays_open = d.stays_open;
      },
    )

-- As long as the queue is open, a thread that waits is enough for everything in it to be started, in
-- order, with nothing dispatched and nothing closed in between.
pub starts_all :
    {n : ℕ} (i : ℕ) (q : DispatchQueue)
    → i < n
    → q.threads i ≡ waiting
    → q.quit ≡ false
    → (t : DispatchQueue) × Reach n q t
      × (t.queue ≡ [])
      × (t.started ≡ q.started ++ q.queue)
      × (t.dispatched ≡ q.dispatched)
      × (t.quit ≡ false)
starts_all {n} i q small w o =
    let (t, d) = drains {n = n} i q.queue q small w o refl in
    (t, d.way, d.empty, d.in_order, d.same, d.stays_open)
