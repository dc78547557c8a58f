-- ===== src/EchoExamples.antt =====
-- Concrete runs of the echo server (materialtest.cpp): the theorems at these inputs.
use nat.Prelude.{
  ℕ, zero, suc, codes, some, [], List, ◌∷◌, ◌++◌, ◌≡◌, refl, arith, length, replicate, All,
}
use nat.Echo.{
  Callback, Arrival, datagram, Task, EchoServer, buffer_size, next_callback, serve, sender, handler,
  complete, do_receive, show, do_send, Reach, here, next, completes, posts, shows, sends, answering,
  posted,
}
use nat.Echo.Bounds.{IsBounded, Reach-IsBounded}
use nat.Echo.Answers.{Answers, Unhurried, start, later, Unhurried-Answers, do_send-overtaken}

length-replicate : (n : ℕ) (a : ℕ) → length (replicate n a) ≡ n
length-replicate zero a = refl
length-replicate (suc n) a = omega (arith, length-replicate n a)

abbrev memory : ℕ → Callback
memory k = record { buffer = replicate buffer_size 0; sender_endpoint = ([], 0) }

memory-size : (k : ℕ) → length (memory k).buffer ≡ buffer_size
memory-size k = length-replicate buffer_size 0

abbrev first : Arrival
first = datagram (codes "9.9.9.9", 4000) (codes "hi")

abbrev second : Arrival
second = datagram (codes "8.8.8.8", 5000) (codes "hello")

-- A handler as it stands after its first and its second call.
abbrev with_receive : ℕ → Task
with_receive k = record (handler k first) { stage = posted }

abbrev printed : ℕ → Task
printed k = record (handler k first) { stage = answering }

-- One datagram, answered before the next comes.
abbrev s0 : EchoServer
s0 = serve memory

abbrev s1 : EchoServer
s1 = complete 0 first s0

abbrev s2 : EchoServer
s2 = do_receive [] (handler 0 first) [] s1

abbrev s3 : EchoServer
s3 = show [] (with_receive 0) [] s2

abbrev s4 : EchoServer
s4 = do_send [] (printed 0) [] s3

unhurried_run : Unhurried s0 s4
unfolding serve complete do_receive show do_send
unhurried_run =
    later
      (later
        (later (later start (completes 0 first refl) tt) (posts [] [] (handler 0 first) refl refl)
          tt)
        (shows [] [] (with_receive 0) refl refl) tt)
      (sends [] [] (printed 0) refl refl) tt

Unhurried-Answers_example : All Answers s4.echoed
Unhurried-Answers_example = Unhurried-Answers memory memory-size unhurried_run

-- The first handler has yet to answer while the two after it post, and so the receive that is posted
-- is for its buffer again.
abbrev t4 : EchoServer
t4 = complete 1 first s3

abbrev t5 : EchoServer
t5 = do_receive (printed 0 ∷ []) (handler 1 first) [] t4

abbrev t6 : EchoServer
t6 = complete 2 first t5

abbrev t7 : EchoServer
t7 = do_receive (printed 0 ∷ with_receive 1 ∷ []) (handler 2 first) [] t6

hurried_run : Reach s0 t7
unfolding serve complete do_receive show next_callback
hurried_run =
    next
      (next
        (next
          (next
            (next
              (next (next here (completes 0 first refl)) (posts [] [] (handler 0 first) refl refl))
              (shows [] [] (with_receive 0) refl refl))
            (completes 1 first refl))
          (posts (printed 0 ∷ []) [] (handler 1 first) refl refl))
        (completes 2 first refl))
      (posts (printed 0 ∷ with_receive 1 ∷ []) [] (handler 2 first) refl refl)

Reach-IsBounded_example : IsBounded t7
Reach-IsBounded_example = Reach-IsBounded memory memory-size hurried_run

posted_again : t7.pending ≡ some 0
unfolding do_receive next_callback
posted_again = refl

three_handlers : t7.tasks ≡ [] ++ printed 0 ∷ with_receive 1 ∷ with_receive 2 ∷ []
unfolding do_receive
three_handlers = refl

do_send-overtaken_example :
    (u : EchoServer) × (content : List ℕ) × Reach s0 u
    × (u.echoed ≡ t7.echoed ++ (first, sender second, content) ∷ [])
do_send-overtaken_example =
    do_send-overtaken [] (with_receive 1 ∷ with_receive 2 ∷ []) (printed 0) second hurried_run
      posted_again three_handlers refl
