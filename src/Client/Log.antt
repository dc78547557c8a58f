-- ===== src/Client/Log.antt =====
-- What `sendTo` (client.cpp) prints before it sends, with `client::getCurrentTime`.
use nat.Prelude.{arith, ℕ, Str, codes, to_string, Option, none, some, ◌++◌, ◌≡◌, refl}
use nat.Clock.{Tm, asctime, pop_back}
use nat.Clock.Lines.{IsLine, append-IsLine, to_string-IsLine, pop_back-asctime, date_text-IsLine}
use nat.Clock.{date_text}

unfoldable pub get_current_time : (ℕ → Tm) → ℕ → Option Str
get_current_time localtime now = pop_back (asctime (localtime now))

-- The line behind the time.
abbrev pub start_sending : Str → Str → ℕ → Str → Str
start_sending time remote_ip remote_port msg =
    codes "=="
    ++ (time
        ++ (codes "start sending:"
            ++ (remote_ip ++ (codes " port:" ++ (to_string remote_port ++ (codes "msg:" ++ msg))))))

unfoldable pub start_line : (ℕ → Tm) → ℕ → Str → ℕ → Str → Option Str
start_line localtime now remote_ip remote_port msg = elim (get_current_time localtime now) [
  | none ↦ none
  | some time ↦ some (start_sending time remote_ip remote_port msg)
]

start_sending-IsLine :
    (time remote_ip : Str) (remote_port : ℕ) (msg : Str)
    → IsLine time
    → IsLine remote_ip
    → IsLine msg
    → IsLine (start_sending time remote_ip remote_port msg)
start_sending-IsLine time remote_ip remote_port msg t i m =
    append-IsLine (codes "==") _ (omega arith) (
      append-IsLine time _ t (
        append-IsLine (codes "start sending:") _ (omega arith) (
          append-IsLine remote_ip _ i (
            append-IsLine (codes " port:") _ (omega arith) (
              append-IsLine (to_string remote_port) _ (to_string-IsLine remote_port)
                (append-IsLine (codes "msg:") msg (omega arith) m))))))

-- For an address and a message without newlines, what `sendTo` prints before it sends is one line,
-- whatever the time zone and the time.
pub start_line-IsLine :
    (localtime : ℕ → Tm) (now : ℕ) (remote_ip : Str) (remote_port : ℕ) (msg : Str)
    → IsLine remote_ip
    → IsLine msg
    → (line : Str) × (start_line localtime now remote_ip remote_port msg ≡ some line) × IsLine line
unfolding start_line get_current_time
start_line-IsLine localtime now remote_ip remote_port msg i m = (
  start_sending (date_text (localtime now)) remote_ip remote_port msg,
  rw (start_line, get_current_time, pop_back-asctime (localtime now)) refl,
  start_sending-IsLine _ remote_ip remote_port msg (date_text-IsLine (localtime now)) i m,
)
