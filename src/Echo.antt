-- ===== src/Echo.antt =====
-- materialtest.cpp: an echo server on one socket, whose threads take turns at three receive buffers.
-- The four threads that `main` starts run the handlers; what one does between two calls of asio is
-- one step here, and the steps of different handlers come in any order.
pub mod Bounds
pub mod Answers
pub mod Command
use nat.Prelude.{
  ℕ, ◌+◌, ◌-◌, Str, ◌≡◌, Bool, true, false, Option, none, some, List, [], ◌∷◌, ◌++◌, ◌==◌,
  if◌then◌else◌, ltb, length, take, overwrite,
}
use nat.Net.{Endpoint}

-- `callback`: a buffer, and where its content came from.
pub record Callback : Type 0 where
  pub buffer : List ℕ
  pub sender_endpoint : Endpoint

abbrev pub buffer_size : ℕ
buffer_size = 4096

-- The length of `callback_list_t`.
abbrev pub callback_count : ℕ
callback_count = 3

-- What `print_to_cout` prints, and what goes out on the socket.
pub record Shown : Type 0 where
  pub endpoint : Endpoint
  pub failed : Bool
  pub bytes : ℕ
  pub content : List ℕ

-- How a receive completes: an error, or the bytes of a datagram.
pub data Arrival : Type 0 where
  broken : Endpoint → Arrival
  datagram : Endpoint → List ℕ → Arrival

-- Where a handler is: its receive is complete, the next receive is posted, its content is printed and
-- its answer yet to be sent, or the answer is out.
pub data Stage : Type 0 where
  received posted answering answered : Stage

-- A handler in progress. `arrival` records what its receive completed with.
pub record Task : Type 0 where
  pub stage : Stage
  pub slot : ℕ
  pub failed : Bool
  pub bytes : ℕ
  pub arrival : Arrival

-- `pending` is the callback that a receive is posted for. `shown` and `echoed` are the output, each
-- answer with what it answers.
pub record EchoServer : Type 0 where
  pub callback_list : ℕ → Callback
  pub pending : Option ℕ
  pub tasks : List Task
  pub shown : List Shown
  pub echoed : List (Arrival × Endpoint × List ℕ)

-- The shim `callback::operator()`: the part of the buffer that the handler may read.
unfoldable pub call : Callback → Bool → ℕ → Shown
call c failed bytes = record {
  endpoint = c.sender_endpoint;
  failed = failed;
  bytes = bytes;
  content = take (if ltb (length c.buffer) bytes then length c.buffer else bytes) c.buffer;
}

-- `next_callback`, with wraparound.
unfoldable pub next_callback : ℕ → ℕ
next_callback k = if k + 1 == callback_count then 0 else k + 1

unfoldable pub set_callback : (ℕ → Callback) → ℕ → Callback → ℕ → Callback
set_callback cs k c i = if k == i then c else cs i

-- `server::server`: the first receive is posted. The buffers hold what the memory held.
unfoldable pub serve : (ℕ → Callback) → EchoServer
serve memory = record {
  callback_list = memory;
  pending = some 0;
  tasks = [];
  shown = [];
  echoed = [];
}

-- The bytes that a receive hands over, of the `buffer_size - 1` that it may write.
unfoldable pub received_bytes : Arrival → List ℕ
received_bytes (broken from) = []
received_bytes (datagram from content) = take (buffer_size - 1) content

unfoldable pub sender : Arrival → Endpoint
sender (broken from) = from
sender (datagram from content) = from

abbrev pub is_broken : Arrival → Bool
is_broken (broken from) = true
is_broken (datagram from content) = false

-- The handler of the receive into `k`, before its first step.
abbrev pub handler : ℕ → Arrival → Task
handler k a = record {
  stage = received;
  slot = k;
  failed = is_broken a;
  bytes = length (received_bytes a);
  arrival = a;
}

-- The receive that is posted for `k` completes: asio writes the buffer and the endpoint.
unfoldable pub complete : ℕ → Arrival → EchoServer → EchoServer
unfolding set_callback
complete k a s = record s {
  callback_list = set_callback s.callback_list k (record {
    buffer = overwrite (received_bytes a) (s.callback_list k).buffer;
    sender_endpoint = sender a;
  });
  pending = none;
  tasks = s.tasks ++ handler k a ∷ [];
}

-- The handler's first call, `do_receive` for the next callback.
unfoldable pub do_receive : List Task → Task → List Task → EchoServer → EchoServer
do_receive before t after s = record s {
  pending = some (next_callback t.slot);
  tasks = before ++ record t { stage = posted } ∷ after;
}

-- Its second, `(*current_callback)(ec, bytes_recvd, print_to_cout)`.
unfoldable pub show : List Task → Task → List Task → EchoServer → EchoServer
show before t after s = record s {
  shown = s.shown ++ call (s.callback_list t.slot) t.failed t.bytes ∷ [];
  tasks = before ++ record t { stage = answering } ∷ after;
}

-- `do_send`, the call of `async_send_to`: it copies the endpoint, and sends `min(length,
-- buffer_size - 1)` bytes of the buffer. The send is taken to happen within the call.
unfoldable pub do_send : List Task → Task → List Task → EchoServer → EchoServer
do_send before t after s =
    let n = if ltb (buffer_size - 1) t.bytes then buffer_size - 1 else t.bytes in
    record s {
      echoed =
          s.echoed
          ++ (
            t.arrival,
            (s.callback_list t.slot).sender_endpoint,
            take n (s.callback_list t.slot).buffer,
          )
            ∷ [];
      tasks = before ++ record t { stage = answered } ∷ after;
    }

-- The handler of the send prints once more.
unfoldable pub finish : Bool → ℕ → List Task → Task → List Task → EchoServer → EchoServer
finish failed sent before t after s = record s {
  shown = s.shown ++ call (s.callback_list t.slot) failed sent ∷ [];
  tasks = before ++ after;
}

pub data Step (s : EchoServer) : EchoServer → Type 0 where
  completes : (k : ℕ) (a : Arrival) → s.pending ≡ some k → Step s (complete k a s)
  posts :
      (before after : List Task) (t : Task)
      → s.tasks ≡ before ++ t ∷ after
      → t.stage ≡ received
      → Step s (do_receive before t after s)
  shows :
      (before after : List Task) (t : Task)
      → s.tasks ≡ before ++ t ∷ after
      → t.stage ≡ posted
      → Step s (show before t after s)
  sends :
      (before after : List Task) (t : Task)
      → s.tasks ≡ before ++ t ∷ after
      → t.stage ≡ answering
      → Step s (do_send before t after s)
  finishes :
      (before after : List Task) (t : Task) (failed : Bool) (sent : ℕ)
      → s.tasks ≡ before ++ t ∷ after
      → t.stage ≡ answered
      → Step s (finish failed sent before t after s)

pub data Reach (s : EchoServer) : EchoServer → Type 0 where
  here : Reach s s
  next : {t u : EchoServer} → Reach s t → Step t u → Reach s u
