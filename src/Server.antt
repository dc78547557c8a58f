-- ===== src/Server.antt =====
-- server.hpp and server.cpp: class `udpServer`.
pub mod State
pub mod Messages
pub mod Route
pub mod Detect
pub mod Update
pub mod Connect
pub mod Filtering
pub mod Ticker
pub mod Receive
pub mod Timer
pub mod Start
pub mod Stable
pub mod TimerStable
pub mod Invariant
pub mod CheckKey
pub mod RoundThrows
pub mod Probes
pub mod Punch
pub mod Undescribed
pub mod Prune
pub mod Live
pub mod ProbeAnswer
pub mod Unconfirmed
pub mod Introduced
pub mod Updated
pub mod Joined
pub mod Register
pub mod Told
pub mod Learns
pub mod Documented
pub mod Runs
pub mod Threads
pub mod LocalIp
pub mod Alone
pub mod Strangers
pub mod Moved
pub mod Timeouts
pub mod ProbeIds
pub mod Race
pub mod Overflow
pub mod Lacking
pub mod Unreadable
pub mod Fatal
pub mod Readable
pub mod Steady
pub mod SteadyRounds
pub mod Newcomers
pub mod Interleave
pub mod Heartbeat
pub mod Idle
pub mod Listening
pub mod Buffer
pub mod BindAborts
