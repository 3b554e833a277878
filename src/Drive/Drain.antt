-- ===== src/Drive/Drain.antt =====
-- `drain_outputs` of src/webrtc/rtc_session.rs: its two loops end.
use selkies_core.Prelude.{
  ℕ, zero, suc, ◌+◌, ◌≤◌, ◌<◌, ◌≡◌, refl, Bool, true, false, not, ◌||◌, List, [], ◌∷◌, ◌++◌, Option,
  none, some, Bytes, leb, if-intro, arith,
}
use selkies_core.Framing.{frame_packet}
use selkies_core.Drive.{
  Output, Rtc, Stop, Link, Polled, Drained, handle_event, on_frame, on_output, poll_outputs,
  re_trigger, on_polled, drain_cycles, drain_outputs, max_drain_cycles,
}

-- str0m's promise: polled again and again, it comes to a timeout, in at most `left` outputs.
abbrev pub Nearer : {Value S : Type 0} → (S → ℕ) → S → Output Value × S → Type 0
Nearer left s (Output.timeout t, s') = Unit
Nearer left s (Output.failed, s') = Unit
Nearer left s (Output.transmit p, s') = left s' < left s
Nearer left s (Output.event e, s') = left s' < left s

abbrev pub Polls : {Value S : Type 0} → Rtc Value S → (S → ℕ) → Type 0
Polls {S = S} rtc left = (s : S) → Nearer left s (rtc.poll_output s)

-- The loop has not run out of fuel.
abbrev pub Ends : Stop → Type 0
Ends Stop.stuck = ⊥
Ends _ = Unit

module _ {Value S : Type 0} (rtc : Rtc Value S) (takes : List Bytes → Bool) (left : S → ℕ)
    (polls : Polls rtc left) where
  poll_outputs-Ends :
      (fuel : ℕ) (had : Bool) (l : Link S)
      → left l.rtc < fuel
      → Ends (poll_outputs rtc takes fuel had l).stop
  unfolding poll_outputs
  poll_outputs-Ends zero had l h = absurd (omega arith)
  poll_outputs-Ends (suc fuel) had l h =
      go (poll_outputs-Ends fuel) (rtc.poll_output l.rtc) (polls l.rtc)
    where
      Earlier : Type 0
      Earlier =
          (had : Bool) (m : Link S)
          → left m.rtc < fuel
          → Ends (poll_outputs rtc takes fuel had m).stop

      framed :
          Earlier
          → (o : Option Bytes) (m : Link S) → left m.rtc < fuel
          → Ends (on_frame rtc takes (poll_outputs rtc takes fuel) o m).stop
      framed ih none m h = tt
      framed ih (some f) m h =
          if-intro (λ (p : Polled S). Ends p.stop) (takes m.written)
            (λ e. ih true (record m { written = m.written ++ f ∷ [] }) h) (λ e. tt)

      go :
          Earlier
          → (r : Output Value × S) → Nearer left l.rtc r
          → Ends
              (on_output rtc takes
                (poll_outputs rtc takes fuel)
                r.0
                had
                (record l { rtc = r.1 })).stop
      go ih (Output.timeout t, s) n = tt
      go ih (Output.failed, s) n = tt
      go ih (Output.transmit p, s) n =
          framed ih (frame_packet p) (record l { rtc = s }) (omega arith)
      go ih (Output.event e, s) n =
          ih had (record l { rtc = s; peer = handle_event e l.peer }) (omega arith)

  -- An end within the cycles allowed.
  abbrev InTime : Drained S → Type 0
  InTime d = Ends d.stop × (d.cycles ≤ max_drain_cycles)

  drain_cycles-InTime :
      (fuel cycles : ℕ) (l : Link S)
      → fuel + cycles ≡ max_drain_cycles
      → cycles < max_drain_cycles
      → InTime (drain_cycles rtc takes left fuel cycles l)
  unfolding drain_cycles
  drain_cycles-InTime zero cycles l e h = absurd (omega arith)
  drain_cycles-InTime (suc fuel) cycles l e h =
      go (drain_cycles-InTime fuel (cycles + 1)) (poll_outputs rtc takes (suc (left l.rtc)) false l)
        (poll_outputs-Ends (suc (left l.rtc)) false l (omega arith))
    where
      Later : Type 0
      Later =
          (m : Link S)
          → fuel + (cycles + 1) ≡ max_drain_cycles
          → cycles + 1 < max_drain_cycles
          → InTime (drain_cycles rtc takes left fuel (cycles + 1) m)

      again :
          Later
          → (t : ℕ) (r : Bool × S) (m : Link S) → leb max_drain_cycles (cycles + 1) ≡ false
          → InTime (
              re_trigger rtc takes
                (drain_cycles rtc takes left fuel (cycles + 1))
                (Stop.next t)
                (cycles + 1)
                r
                m)
      again ih t (true, s) m b = ih (record m { rtc = s }) (omega arith) (ground arith)
      again ih t (false, s) m b = (tt, omega arith)

      second : (a b : Bool) → (a || b) ≡ false → b ≡ false
      second true b h = cc
      second false b h = h

      settle :
          Later
          → (stop : Stop) (had : Bool) (m : Link S) → Ends stop
          → InTime (
              on_polled rtc takes
                (drain_cycles rtc takes left fuel)
                cycles
                (record { stop = stop; had_transmit = had; link = m }))
      settle ih (Stop.next t) had m n =
          if-intro InTime (not had || leb max_drain_cycles (cycles + 1)) (λ e. (tt, omega arith))
            (λ b. again ih t (rtc.handle_timeout m.rtc) m (second (not had) _ b))
      settle ih Stop.connection_failed had m n = (tt, omega arith)
      settle ih Stop.panicked had m n = (tt, omega arith)
      settle ih Stop.stuck had m n = elim n [ ]

      go :
          Later
          → (p : Polled S) → Ends p.stop
          → InTime (on_polled rtc takes (drain_cycles rtc takes left fuel) cycles p)
      go ih p n = settle ih p.stop p.had_transmit p.link n

  -- Draining ends, after at most 512 cycles: at a timeout of str0m, with an error of str0m or of the
  -- connection, or at the assertion on the length of a packet. str0m keeps its promise: polled
  -- again and again, it gives at most `left` outputs before a timeout or an error. What it sends,
  -- when it is told of a timeout, and whether the connection takes the frames, may be anything.
  pub drain_outputs-InTime : (l : Link S) → InTime (drain_outputs rtc takes left l)
  unfolding drain_outputs
  drain_outputs-InTime l = drain_cycles-InTime max_drain_cycles 0 l refl (omega arith)
