-- ===== src/Lib.antt =====
-- nat: nodes that find one another behind NATs by UDP.
--
-- A node (server.cpp) has a socket, a handler that is called for each datagram, and a timer thread.
-- It keeps a list of nodes (managerhost.cpp), each a JSON text under the node's ID, a map of filtering
-- probes that wait for an answer, and a count of unanswered heartbeats for each endpoint. It sends
-- through client.cpp. The commands of main.cpp start a node or send one message. dispatchqueue.cpp
-- is a pool of threads for tasks, and materialtest.cpp an echo server of its own.
--
-- Files:
--   Prelude         texts as lists of byte codes, decimal numbers (`to_string`, `stoi` of a 32-bit
--                   int), Boolean tests
--   StdMap          `std::map` with string keys, as a list in key order; StdMap.Cursor and
--                   StdMap.Iterator have its iterators
--   External        what the node takes from the JSON library (json.hpp) and from Boost: parameters,
--                   with their documented laws
--   Effect          code that changes a state and may fail: `exception` for an exception, which
--                   `attempt` catches as a try block does and which ends the process where nothing
--                   does, `undefined` for undefined behaviour, `endless` for a loop that never ends
--   Effect.Iterate  a loop over such a map by an iterator, while its body changes the map
--   Describe        the JSON that describes a node
--   ManagerHost     managerhost.hpp and managerhost.cpp
--   Net             what the resolver and a socket's `connect` answer: a parameter
--   Clock           `getCurrentTime` of server.cpp, over `localtime` as a parameter
--   Client          client.hpp, and `sendTo` of client.cpp over the list of datagrams sent so far
--   Client.Log, Client.LocalIp, Client.Encrypt
--                   the line that `sendTo` prints, `LocalIp`, and `encrypto` over plusaes
--                   (encrypto.hpp) as a parameter
--   Server.State    the members of `udpServer` (server.hpp) and the calls that change one
--   Server.Start    the constructor
--   Server.Messages the JSON messages
--   Server.Detect, Server.Update, Server.Connect, Server.Filtering, Server.Ticker
--                   the branches of `handleReceive`, by message type
--   Server.Receive  `handleReceive` around them
--   Server.Route    `updateRouteInfo`
--   Server.Timer    one round of `threadhandle`, with `listMsgQueue`
--   Server.Live     the same round with its loops by iterators
--   Server.Interleave
--                   the timer's thread with calls of the handler between its turns, a turn being
--                   what one of its loops does at one entry
--   Server.Race     the loop over `tickerNum`, gone on with after a call of the handler
--   Server.Threads  the loops of `threadhandle` and `msgThread`, and a node over a sequence of events
--   Server.LocalIp  `getLocalIP` and `sendRequest`
--   Server.Documented
--                   `msgTypeEnum`, and the messages that the comment in server.hpp describes
--   Main            the callbacks of the two subcommands of main.cpp
--   Main.Options, Main.Run
--                   the command line that main.cpp declares, and `main`, over the reader of command
--                   lines (CLI11.hpp) as a parameter
--   DispatchQueue   dispatchqueue.hpp and dispatchqueue.cpp, as a step relation
--   Echo            the server of materialtest.cpp, as a step relation; Echo.Command is its `main`
-- The other files hold proofs about these; Server.Invariant declares the runs of a node, handlers and
-- rounds in any order, and ManagerHost.Spec and ManagerHost.Abstract the table that managerhost.cpp
-- stands for. Sample is a concrete JSON library, Boost, network and cipher, at which all of it runs,
-- and the files whose names end in Examples hold tests.
--
-- Bounds: a port is below 2^16 where the code reads one, the receive buffer has 10000 bytes, the time
-- in a probe's key is read by `stoi` and so must fit 31 bits, a heartbeat count wraps at 2^16 and the
-- count of idle rounds at 2^32; the echo server has three buffers of 4096 bytes. Every loop goes
-- through a finite list, by structural recursion; a loop of the source that would not end is the
-- outcome `endless`, and the loops of the threads run once for each event of a list. The loops by
-- iterators alone take fuel, one more than the entries of the map, which is what the bodies of the
-- timer's loops need, as none of them adds an entry to the map that its loop goes over.
--
-- Not modelled: what is printed, but for a few lines; sleeps; the copies of other projects
-- (json.hpp, CLI11.hpp, encrypto.hpp), which are parameters. Opening a socket is taken to succeed,
-- and `main` is modelled up to the point where it waits in `io_service.run()`. The handler and the
-- timer run in two threads without a lock. Server.Interleave has a call of the handler, and what
-- the timer does at one entry of a loop, as one step each, in any order; data races inside such a
-- step are not seen. In the echo server one step is what a handler does between two calls of asio,
-- so races inside a print or a copy of a buffer are not seen, and an answer goes out within the
-- call of `async_send_to`. Endpoints' addresses are texts, and what the socket reports on a send is
-- ignored, as in the source.
pub mod Prelude
pub mod StdMap
pub mod External
pub mod Effect
pub mod Describe
pub mod ManagerHost
pub mod Net
pub mod Client
pub mod Clock
pub mod Server
pub mod Main
pub mod DispatchQueue
pub mod Echo
mod Sample
mod Examples
mod EchoExamples
mod NodeExamples
mod MessageExamples
mod MainExamples
mod ProbeExamples
mod QueueExamples
mod HandlerExamples
mod RoundExamples
mod InterleaveExamples
