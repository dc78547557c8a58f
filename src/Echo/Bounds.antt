-- ===== src/Echo/Bounds.antt =====
-- The echo server (materialtest.cpp) stays within its buffers, and keeps one receive going.
use nat.Prelude.{
  ℕ, ◌+◌, ◌<◌, ◌≡◌, ap, ◌∙◌, subst, Option, none, some, List, [], ◌∷◌, ◌++◌, ◌==◌, if◌then◌else◌,
  ltb, length, take, length-overwrite, length-take, All, ◌-◌, All-append, All-replace, All-remove,
  All-at, arith, Bool-cases, inl, inr, Bool,
}
use nat.Net.{Endpoint}
use nat.Echo.{
  Callback, Arrival, broken, datagram, Stage, received, posted, answering, answered, Task,
  EchoServer, buffer_size, callback_count, next_callback, set_callback, serve, received_bytes,
  handler, complete, do_receive, show, do_send, finish, Step, completes, posts, shows, sends,
  finishes, Reach, here, next,
}

-- The number of receives that are posted.
unfoldable pub posted_receives : Option ℕ → ℕ
posted_receives none = 0
posted_receives (some k) = 1

unfoldable pub to_post : Stage → ℕ
to_post received = 1
to_post _ = 0

-- The number of handlers that have yet to post the next receive.
unfoldable pub about_to_post : List Task → ℕ
about_to_post [] = 0
about_to_post (t ∷ ts) = to_post t.stage + about_to_post ts

-- A handler's buffer exists, and its bytes fit.
pub record Fits (t : Task) : Type 0 where
  pub slot : t.slot < callback_count
  pub bytes : t.bytes < buffer_size

abbrev pub Small : Arrival × Endpoint × List ℕ → Type 0
Small e = length e.2 < buffer_size

some_inj : {a b : ℕ} → some a ≡ some b → a ≡ b
some_inj e = cc

-- A posted receive has a buffer.
abbrev pub HasBuffer : Option ℕ → Type 0
HasBuffer none = Unit
HasBuffer (some k) = k < callback_count

HasBuffer-some : (p : Option ℕ) (k : ℕ) → HasBuffer p → p ≡ some k → k < callback_count
HasBuffer-some none k h e = cc
HasBuffer-some (some j) k h e = subst (λ i. i < callback_count) (some_inj e) h

pub record IsBounded (s : EchoServer) : Type 0 where
  pub buffers : (k : ℕ) → length (s.callback_list k).buffer ≡ buffer_size
  pub slot : HasBuffer s.pending
  pub tasks : All Fits s.tasks
  pub armed : posted_receives s.pending + about_to_post s.tasks ≡ 1
  pub answers : All Small s.echoed

about_to_post-append :
    (xs ys : List Task) → about_to_post (xs ++ ys) ≡ about_to_post xs + about_to_post ys
unfolding about_to_post
about_to_post-append [] ys = omega arith
about_to_post-append (x ∷ xs) ys = omega (arith, about_to_post-append xs ys)

next_callback-lt : (k : ℕ) → k < callback_count → next_callback k < callback_count
unfolding next_callback
next_callback-lt k h = ground arith

-- A task that moves on from `received`, or from another stage.
about_to_post-replace :
    (before after : List Task) (t u : Task)
    → about_to_post (before ++ t ∷ after) + to_post u.stage
      ≡ about_to_post (before ++ u ∷ after) + to_post t.stage
unfolding about_to_post
about_to_post-replace before after t u =
    omega (arith, about_to_post-append before (t ∷ after), about_to_post-append before (u ∷ after))

about_to_post-remove :
    (before after : List Task) (t : Task)
    → about_to_post (before ++ t ∷ after) ≡ about_to_post (before ++ after) + to_post t.stage
unfolding about_to_post
about_to_post-remove before after t =
    omega (arith, about_to_post-append before (t ∷ after), about_to_post-append before after)

pub length-received_bytes : (a : Arrival) → length (received_bytes a) < buffer_size
unfolding received_bytes
length-received_bytes (broken from) = omega arith
length-received_bytes (datagram from content) = omega (arith, length-take (buffer_size - 1) content)

complete_buffers :
    (k : ℕ) (a : Arrival) (s : EchoServer)
    → ((i : ℕ) → length (s.callback_list i).buffer ≡ buffer_size)
    → (i : ℕ) → length ((complete k a s).callback_list i).buffer ≡ buffer_size
unfolding complete set_callback
complete_buffers k a s h i = elim (Bool-cases (k == i)) [
  | inl e ↦ rw e (length-overwrite (received_bytes a) (s.callback_list k).buffer ∙ h k)
  | inr e ↦ rw e (h i)
]

module _ (s : EchoServer) (h : IsBounded s) where
  complete-IsBounded : (k : ℕ) (a : Arrival) → s.pending ≡ some k → IsBounded (complete k a s)
  unfolding complete about_to_post posted_receives to_post
  complete-IsBounded k a e = record {
    buffers = complete_buffers k a s h.buffers;
    slot = tt;
    tasks = All-append Fits s.tasks _ h.tasks (
      record { slot = HasBuffer-some s.pending k h.slot e; bytes = length-received_bytes a },
      tt,
    );
    armed = omega (arith, about_to_post-append s.tasks (handler k a ∷ []), rw e at h.armed);
    answers = h.answers;
  }

  module _ (before after : List Task) (t : Task) (e : s.tasks ≡ before ++ t ∷ after) where
    tasks_here : All Fits (before ++ t ∷ after)
    tasks_here = rw e at h.tasks

    armed_here : posted_receives s.pending + about_to_post (before ++ t ∷ after) ≡ 1
    armed_here = rw e at h.armed

    moved : (g : Stage) → All Fits (before ++ record t { stage = g } ∷ after)
    moved g =
        All-replace Fits before after t (record t { stage = g }) tasks_here
          (λ f. record { slot = f.slot; bytes = f.bytes })

    do_receive-IsBounded : t.stage ≡ received → IsBounded (do_receive before t after s)
    unfolding do_receive posted_receives to_post
    do_receive-IsBounded g = record {
      buffers = h.buffers;
      slot = next_callback-lt t.slot (All-at Fits before after t tasks_here).slot;
      tasks = moved posted;
      armed = omega (
        arith,
        about_to_post-replace before after t (record t { stage = posted }),
        armed_here,
        ap to_post g,
      );
      answers = h.answers;
    }

    show-IsBounded : t.stage ≡ posted → IsBounded (show before t after s)
    unfolding show to_post
    show-IsBounded g = record {
      buffers = h.buffers;
      slot = h.slot;
      tasks = moved answering;
      armed = omega (
        arith,
        about_to_post-replace before after t (record t { stage = answering }),
        armed_here,
        ap to_post g,
      );
      answers = h.answers;
    }

    answer_fits :
        length (
          take
            (if ltb (buffer_size - 1) t.bytes then buffer_size - 1 else t.bytes)
            (s.callback_list t.slot).buffer)
        < buffer_size
    answer_fits = elim (Bool-cases (ltb (buffer_size - 1) t.bytes)) [
      | inl e ↦ rw e (omega (arith, length-take (buffer_size - 1) (s.callback_list t.slot).buffer))
      | inr e ↦ rw e (
          omega (
            arith,
            length-take t.bytes (s.callback_list t.slot).buffer,
            (All-at Fits before after t tasks_here).bytes,
          ))
    ]

    do_send-IsBounded : t.stage ≡ answering → IsBounded (do_send before t after s)
    unfolding do_send to_post
    do_send-IsBounded g = record {
      buffers = h.buffers;
      slot = h.slot;
      tasks = moved answered;
      armed = omega (
        arith,
        about_to_post-replace before after t (record t { stage = answered }),
        armed_here,
        ap to_post g,
      );
      answers = All-append Small s.echoed _ h.answers (answer_fits, tt);
    }

    finish-IsBounded :
        (failed : Bool) (sent : ℕ)
        → t.stage ≡ answered
        → IsBounded (finish failed sent before t after s)
    unfolding finish to_post
    finish-IsBounded failed sent g = record {
      buffers = h.buffers;
      slot = h.slot;
      tasks = All-remove Fits before after t tasks_here;
      armed = omega (arith, about_to_post-remove before after t, armed_here, ap to_post g);
      answers = h.answers;
    }

pub Step-IsBounded : {s t : EchoServer} → Step s t → IsBounded s → IsBounded t
Step-IsBounded {s} (completes k a e) h = complete-IsBounded s h k a e
Step-IsBounded {s} (posts before after t e g) h = do_receive-IsBounded s h before after t e g
Step-IsBounded {s} (shows before after t e g) h = show-IsBounded s h before after t e g
Step-IsBounded {s} (sends before after t e g) h = do_send-IsBounded s h before after t e g
Step-IsBounded {s} (finishes before after t failed sent e g) h =
    finish-IsBounded s h before after t e failed sent g

pub serve-IsBounded :
    (memory : ℕ → Callback)
    → ((k : ℕ) → length (memory k).buffer ≡ buffer_size)
    → IsBounded (serve memory)
unfolding serve posted_receives about_to_post
serve-IsBounded memory h = record {
  buffers = h;
  slot = omega arith;
  tasks = tt;
  armed = omega arith;
  answers = tt;
}

-- Whatever arrives and however the handlers' steps fall between one another, each buffer keeps its
-- size, the posted receive and every handler have one of the three buffers, a receive brings at most
-- 4095 bytes and an answer has at most as many, and there is at each time one receive that is posted
-- or one handler that is to post it, never two.
pub Reach-IsBounded :
    (memory : ℕ → Callback) {s : EchoServer}
    → ((k : ℕ) → length (memory k).buffer ≡ buffer_size)
    → Reach (serve memory) s
    → IsBounded s
Reach-IsBounded memory h here = serve-IsBounded memory h
Reach-IsBounded memory h (next r st) = Step-IsBounded st (Reach-IsBounded memory h r)
