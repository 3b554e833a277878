-- ===== src/Tests/Drives.antt =====
-- A connected session on a few packets.
use selkies_core.Prelude.{ℕ, zero, suc, ◌≤◌, List, [], ◌∷◌, Bool, true, Bytes, Text, arith}
use selkies_core.Drive.{Rtc, Output, Link, new, drain_outputs, max_drain_cycles}
use selkies_core.Drive.Drain.{Ends, Polls, drain_outputs-InTime}
use selkies_core.Tests.Channels.{world}

abbrev has_stream : Text → Bool
has_stream mid = true

abbrev sounds : List Bytes
sounds = (7 ∷ []) ∷ []

-- A machine that has a number of packets to send, and more after each timeout.
abbrev poll : ℕ → Output ℕ × ℕ
poll zero = (Output.timeout 20, zero)
poll (suc n) = (Output.transmit (n ∷ []), n)

abbrev sender : Rtc ℕ ℕ
sender = record { poll_output = poll; handle_timeout = λ n. (true, 3) }

abbrev to_send : ℕ → ℕ
to_send n = n

sender-Polls : Polls sender to_send
sender-Polls zero = tt
sender-Polls (suc n) = omega arith

abbrev link : Link ℕ
link = record { rtc = 2; peer = (new, world); written = [] }

drain_outputs-InTime_example :
    Ends (drain_outputs sender (λ w. true) to_send link).stop
    × ((drain_outputs sender (λ w. true) to_send link).cycles ≤ max_drain_cycles)
drain_outputs-InTime_example = drain_outputs-InTime sender (λ w. true) to_send sender-Polls link
