-- ===== src/Server/Interleave.antt =====
-- The timer's thread (`threadhandle`, server.cpp) turn by turn, with calls of the handler between the
-- turns: the two threads share the maps without a lock. A turn is what a loop does at one entry.
pub mod Standing
pub mod Safe
pub mod Detects
pub mod Turns
pub mod Loops
pub mod Whole
pub mod Nodes
pub mod Expiry
pub mod Undefined
pub mod Races
use nat.Prelude.{ℕ, Str, str_eq, leb, Option, none, some, Bool, true, false, ◌||◌, [], ◌∷◌, ◌≡◌}
use nat.StdMap.{StdMap, find, erase}
use nat.StdMap.Iterator.{first_key, next_key}
use nat.External.{Env}
use nat.Effect.{M, done, pure, gets, require, defined, modify, ◌>>=◌, ◌>>◌, if◌run◌else◌}
use nat.Describe.{node_ip, node_port}
use nat.Server.State.{Server, with_hosts, erase_ticker}
use nat.Server.Messages.{update_msg}
use nat.Server.Ticker.{ticker_key}
use nat.Server.Receive.{Datagram, RecvError, handle_receive}
use nat.Server.Timer.{package_num, check_entry, list_msg_queue}
use nat.Server.Live.{tick_live, notify_live}

-- Where the thread stands: asleep, before the test of a loop, with the entry that the loop's iterator is
-- at, or before `listMsgQueue`. `pruning` is the loop over the nodes inside the one over `tickerNum`.
pub data Place (J : Type 0) : Type 0 where
  asleep : Place J
  checking : Option Str → Place J
  counting : Option Str → Place J
  pruning : Str → Option Str → Place J
  ticking : Option Str → Place J
  telling : J → Option Str → Place J
  listing : Place J

-- The local variables of the thread.
pub record Timer (J : Type 0) : Type 0 where
  pub now : ℕ
  pub need_notify : Bool
  pub place : Place J

module _ {J : Type 0} (E : Env J) where
  abbrev pub at_place : Place J → Timer J → Timer J
  at_place p t = record t { place = p }

  unfoldable pub check_turn : Str → Timer J → M (Server J) (Timer J)
  check_turn id t = do
    checks ← gets (λ s. s.f_ck_time_map)
    key ← defined (find id checks)
    late ← check_entry E t.now id key
    left ← gets (λ s. s.f_ck_time_map)
    pure (record t { need_notify = t.need_notify || late; place = checking (next_key id left) })

  unfoldable pub count_turn : Str → Timer J → M (Server J) (Timer J)
  count_turn key t = do
    tickers ← gets (λ s. s.ticker_num)
    n ← defined (find key tickers)
    hosts ← gets (λ s. s.host_list)
    if leb package_num n
        run pure (record t { need_notify = true; place = pruning key (first_key hosts) })
        else pure (at_place (counting (next_key key tickers)) t)

  -- The endpoint is compared with `nit->first`, which is read through the iterator of the outer loop.
  unfoldable pub prune_turn : Str → Str → Timer J → M (Server J) (Timer J)
  prune_turn key k t = do
    hosts ← gets (λ s. s.host_list)
    v ← defined (find k hosts)
    item ← require (E.parse v)
    ip ← require (node_ip E item)
    port ← require (node_port E item)
    tickers ← gets (λ s. s.ticker_num)
    n ← defined (find key tickers)
    if str_eq (ticker_key ip port) key
        run modify (λ s. with_hosts (erase k s.host_list) s)
        else pure tt
    pure (at_place (pruning key (next_key k hosts)) t)

  -- `tickerNum.erase(nit++)`.
  unfoldable pub drop_turn : Str → Timer J → M (Server J) (Timer J)
  drop_turn key t = do
    tickers ← gets (λ s. s.ticker_num)
    n ← defined (find key tickers)
    erase_ticker key
    pure (at_place (counting (next_key key tickers)) t)

  unfoldable pub tick_turn : Str → Timer J → M (Server J) (Timer J)
  tick_turn k t = do
    hosts ← gets (λ s. s.host_list)
    v ← defined (find k hosts)
    tick_live E k v
    pure (at_place (ticking (next_key k hosts)) t)

  unfoldable pub tell_turn : J → Str → Timer J → M (Server J) (Timer J)
  tell_turn msg k t = do
    hosts ← gets (λ s. s.host_list)
    v ← defined (find k hosts)
    notify_live E msg k v
    pure (at_place (telling msg (next_key k hosts)) t)

  -- The next thing that the thread does; `clock` is what `std::time` says if it is asked.
  unfoldable pub turn : ℕ → Timer J → Place J → M (Server J) (Timer J)
  turn clock t asleep = do
    checks ← gets (λ s. s.f_ck_time_map)
    pure (record t { now = clock; place = checking (first_key checks) })
  turn clock t (checking (some id)) = check_turn id t
  turn clock t (checking none) = do
    tickers ← gets (λ s. s.ticker_num)
    pure (at_place (counting (first_key tickers)) t)
  turn clock t (counting (some key)) = count_turn key t
  turn clock t (counting none) = do
    hosts ← gets (λ s. s.host_list)
    pure (at_place (ticking (first_key hosts)) t)
  turn clock t (pruning key (some k)) = prune_turn key k t
  turn clock t (pruning key none) = drop_turn key t
  turn clock t (ticking (some k)) = tick_turn k t
  turn clock t (ticking none) = do
    own ← gets (λ s. s.node_id)
    hosts ← gets (λ s. s.host_list)
    if t.need_notify
        run pure (at_place (telling (update_msg E own hosts) (first_key hosts)) t)
        else pure (at_place listing t)
  turn clock t (telling msg (some k)) = tell_turn msg k t
  turn clock t (telling msg none) = pure (record t { need_notify = false; place = listing })
  turn clock t listing = do list_msg_queue E; pure (at_place asleep t)

  -- The thread before its first round.
  abbrev pub new_timer : Timer J
  new_timer = record { now = 0; need_notify = false; place = asleep }

  -- Turns of the timer and calls of the handler, in any order, each of which returned; the datagrams are
  -- of a kind.
  pub data Mixed (Kind : Datagram → Type 0) (s : Server J) : Timer J → Server J → Type 0 where
    begins : Mixed Kind s new_timer s
    handles :
        {t : Timer J} {u v : Server J} (err : RecvError) (d : Datagram)
        → Kind d
        → Mixed Kind s t u
        → handle_receive E err d u ≡ done tt v
        → Mixed Kind s t v
    turns :
        {t t' : Timer J} {u v : Server J} (clock : ℕ)
        → Mixed Kind s t u
        → turn clock t t.place u ≡ done t' v
        → Mixed Kind s t' v
