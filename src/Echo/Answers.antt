-- ===== src/Echo/Answers.antt =====
-- What the echo server (materialtest.cpp) answers, and when the answer is another's.
use nat.Prelude.{
  ℕ, ◌-◌, ◌≡◌, ◌≢◌, refl, ap, ◌∙◌, some, List, [], ◌∷◌, ◌++◌, ◌==◌, ==_iff, if◌then◌else◌, ltb,
  length, take, take-overwrite, All, All-append, All-replace, All-remove, All-at, arith, Bool-cases,
  inl, inr,
}
use mathlib.Core.List.{append_assoc}
use nat.Net.{Endpoint}
use nat.Echo.{
  Reach, next, answering, Callback, Arrival, Stage, Task, EchoServer, buffer_size, set_callback,
  serve, received_bytes, sender, handler, complete, do_receive, show, do_send, finish, Step,
  completes, posts, shows, sends, finishes,
}
use nat.Echo.Bounds.{IsBounded, Step-IsBounded, serve-IsBounded, length-received_bytes}

-- The handler's callback is another.
abbrev pub Elsewhere : ℕ → Task → Type 0
Elsewhere k t = k ≢ t.slot

-- A step that does not write into the callback of a handler that is still at work.
abbrev pub InTime : (s : EchoServer) {t : EchoServer} → Step s t → Type 0
InTime s (completes k a e) = All (Elsewhere k) s.tasks
InTime s _ = Unit

pub data Unhurried (s : EchoServer) : EchoServer → Type 0 where
  start : Unhurried s s
  later : {t u : EchoServer} → Unhurried s t → (st : Step t u) → InTime t st → Unhurried s u

-- The callback of a handler still holds what its receive wrote.
pub record IsFresh (cs : ℕ → Callback) (t : Task) : Type 0 where
  pub bytes : t.bytes ≡ length (received_bytes t.arrival)
  pub content : take t.bytes (cs t.slot).buffer ≡ received_bytes t.arrival
  pub from : (cs t.slot).sender_endpoint ≡ sender t.arrival

-- The answer goes to the sender, with what it sent.
abbrev pub Answers : Arrival × Endpoint × List ℕ → Type 0
Answers e = (e.1 ≡ sender e.0) × (e.2 ≡ received_bytes e.0)

pub record IsFaithful (s : EchoServer) : Type 0 where
  pub bounded : IsBounded s
  pub fresh : All (IsFresh s.callback_list) s.tasks
  pub answers : All Answers s.echoed

set_callback-ne :
    (cs : ℕ → Callback) (k i : ℕ) (c : Callback) → k ≢ i → set_callback cs k c i ≡ cs i
unfolding set_callback
set_callback-ne cs k i c h = elim (Bool-cases (k == i)) [
  | inl e ↦ absurd (h ((==_iff k i).0 e))
  | inr e ↦ rw e refl
]

set_callback-eq : (cs : ℕ → Callback) (k : ℕ) (c : Callback) → set_callback cs k c k ≡ c
unfolding set_callback
set_callback-eq cs k c = rw ((==_iff k k).1 refl) refl

IsFresh-Elsewhere :
    (cs : ℕ → Callback) (k : ℕ) (c : Callback) (ts : List Task)
    → All (IsFresh cs) ts
    → All (Elsewhere k) ts
    → All (IsFresh (set_callback cs k c)) ts
IsFresh-Elsewhere cs k c [] f e = tt
IsFresh-Elsewhere cs k c (t ∷ ts) f e =
    let same = set_callback-ne cs k t.slot c e.0 in
    (
      record { bytes = f.0.bytes; content = rw same (f.0.content); from = rw same (f.0.from) },
      IsFresh-Elsewhere cs k c ts f.1 e.1,
    )

module _ (s : EchoServer) (h : IsFaithful s) where
  complete-IsFaithful :
      (k : ℕ) (a : Arrival) (e : s.pending ≡ some k)
      → All (Elsewhere k) s.tasks
      → IsFaithful (complete k a s)
  unfolding complete
  complete-IsFaithful k a e apart = record {
    bounded = Step-IsBounded (completes k a e) h.bounded;
    fresh =
        All-append (IsFresh _) s.tasks _
          (IsFresh-Elsewhere s.callback_list k _ s.tasks h.fresh apart) (written, tt);
    answers = h.answers;
  }
    where
      written : IsFresh (complete k a s).callback_list (handler k a)
      written = record {
        bytes = refl;
        content = rw (set_callback-eq s.callback_list k _) (
            take-overwrite (received_bytes a) (s.callback_list k).buffer
              (omega (arith, length-received_bytes a, h.bounded.buffers k)));
        from = rw (set_callback-eq s.callback_list k _) refl;
      }

  module _ (before after : List Task) (t : Task) (e : s.tasks ≡ before ++ t ∷ after) where
    IsFresh-here : All (IsFresh s.callback_list) (before ++ t ∷ after)
    IsFresh-here = rw e at h.fresh

    moved : (g : Stage) → All (IsFresh s.callback_list) (before ++ record t { stage = g } ∷ after)
    moved g =
        All-replace (IsFresh s.callback_list) before after t (record t { stage = g }) IsFresh-here
          (λ f. record { bytes = f.bytes; content = f.content; from = f.from })

    answer :
        take
          (if ltb (buffer_size - 1) t.bytes then buffer_size - 1 else t.bytes)
          (s.callback_list t.slot).buffer
        ≡ received_bytes t.arrival
    answer =
        let f = All-at (IsFresh s.callback_list) before after t IsFresh-here in
        elim (Bool-cases (ltb (buffer_size - 1) t.bytes)) [
          | inl big ↦ absurd (ground (arith, big, f.bytes, length-received_bytes t.arrival))
          | inr small ↦ rw small (f.content)
        ]

Step-IsFaithful :
    (s : EchoServer) {t : EchoServer} (st : Step s t) → InTime s st → IsFaithful s → IsFaithful t
unfolding do_receive show do_send finish
Step-IsFaithful s (completes k a e) apart h = complete-IsFaithful s h k a e apart
Step-IsFaithful s (posts before after t e g) ok h = record {
  bounded = Step-IsBounded (posts before after t e g) h.bounded;
  fresh = moved s h before after t e _;
  answers = h.answers;
}
Step-IsFaithful s (shows before after t e g) ok h = record {
  bounded = Step-IsBounded (shows before after t e g) h.bounded;
  fresh = moved s h before after t e _;
  answers = h.answers;
}
Step-IsFaithful s (sends before after t e g) ok h = record {
  bounded = Step-IsBounded (sends before after t e g) h.bounded;
  fresh = moved s h before after t e _;
  answers = All-append Answers s.echoed _ h.answers (
    (
      (All-at (IsFresh s.callback_list) before after t (IsFresh-here s h before after t e)).from,
      answer s h before after t e,
    ),
    tt,
  );
}
Step-IsFaithful s (finishes before after t failed sent e g) ok h = record {
  bounded = Step-IsBounded (finishes before after t failed sent e g) h.bounded;
  fresh = All-remove (IsFresh s.callback_list) before after t (IsFresh-here s h before after t e);
  answers = h.answers;
}

Unhurried-IsFaithful :
    (memory : ℕ → Callback) {s : EchoServer}
    → ((k : ℕ) → length (memory k).buffer ≡ buffer_size)
    → Unhurried (serve memory) s
    → IsFaithful s
unfolding serve
Unhurried-IsFaithful memory h start = record {
  bounded = serve-IsBounded memory h;
  fresh = tt;
  answers = tt;
}
Unhurried-IsFaithful memory h (later {t = t} r st ok) =
    Step-IsFaithful t st ok (Unhurried-IsFaithful memory h r)

-- As long as no receive completes into the callback of a handler that is still at work, every answer
-- goes to the sender of the datagram that it answers, and carries that datagram's first 4095 bytes.
pub Unhurried-Answers :
    (memory : ℕ → Callback) {s : EchoServer}
    → ((k : ℕ) → length (memory k).buffer ≡ buffer_size)
    → Unhurried (serve memory) s
    → All Answers s.echoed
Unhurried-Answers memory h r = (Unhurried-IsFaithful memory h r).answers

-- From a state with a handler that has yet to answer, and a receive posted into the same callback,
-- whatever arrives next can be taken for the one to answer: the handler sends to the new sender.
pub do_send-overtaken :
    {x s : EchoServer} (before after : List Task) (t : Task) (a : Arrival)
    → Reach x s
    → s.pending ≡ some t.slot
    → s.tasks ≡ before ++ t ∷ after
    → t.stage ≡ answering
    → (u : EchoServer) × (content : List ℕ) × Reach x u
      × (u.echoed ≡ s.echoed ++ (t.arrival, sender a, content) ∷ [])
unfolding do_send complete
do_send-overtaken {s = s} before after t a r e q g =
    let rest = after ++ handler t.slot a ∷ [] in
    let s1 = complete t.slot a s in
    let size = if ltb (buffer_size - 1) t.bytes then buffer_size - 1 else t.bytes in
    let content = take size (s1.callback_list t.slot).buffer in
    let appended = ap (λ ts. ts ++ handler t.slot a ∷ []) q ∙ append_assoc before (t ∷ after) _ in
    (
      do_send before t rest s1,
      content,
      next (next r (completes t.slot a e)) (sends before rest t appended g),
      ap (λ c. s.echoed ++ (t.arrival, c, content) ∷ [])
          (ap (λ c. c.sender_endpoint) (set_callback-eq s.callback_list t.slot _)),
    )
