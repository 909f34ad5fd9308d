-- ===== src/Can/Bus/Filtered.antt =====
-- Which frame `recv` takes from the channel, and what the made-up frames count.
use nazh.Base.{
  ℕ, ◌≤◌, Option, length, leb, zero, suc, ◌+◌, ◌*◌, ◌/◌, ◌%◌, ◌^◌, ◌<◌, ◌≡◌, refl, ap, sym, ◌∙◌,
  true, false, some, List, [], ◌∷◌, ◌++◌, none, inl, inr, map, arith, Bool-cases,
}
use mathlib.Core.Path.{subst}
use nazh.Connections.Types.{DateTime}
use nazh.Can.Frame.{CanFrame, CanFilter}
use nazh.Can.Bus.{
  BusState, error, Arrival, arrived, closed, Receiver, passes, recv_loop, recv, next_frame,
}

-- frames that were taken in as many rounds, each before the deadline, and that do not pass the filters
abbrev pub Skipped : List CanFilter → ℕ → (ℕ → ℕ) → List CanFrame → Type 0
Skipped filters deadline clock [] = Unit
Skipped filters deadline clock (frame ∷ frames) =
    ((clock 0 < deadline) × (passes filters frame ≡ false))
    × Skipped filters deadline (λ n. clock (suc n)) frames

-- the last round, at the time `now`, from what is then left of the channel
pub data IsEnd (filters : List CanFilter) (deadline now : ℕ) (state : BusState)
    : List Arrival → Option CanFrame × BusState × List Arrival → Type 0 where
  delivers :
      {frame : CanFrame} {queue : List Arrival}
      → now < deadline
      → passes filters frame ≡ true
      → IsEnd filters deadline now state (arrived frame ∷ queue) (some frame, state, queue)
  late :
      {queue : List Arrival}
      → deadline ≤ now
      → IsEnd filters deadline now state queue (none, state, queue)
  hung_up :
      {queue : List Arrival}
      → now < deadline
      → IsEnd filters deadline now state (closed ∷ queue) (none, error, closed ∷ queue)
  silent : IsEnd filters deadline now state [] (none, state, [])

-- the frames that a call skips and how it ends behind them
pub record IsReceipt (filters : List CanFilter) (deadline : ℕ) (clock : ℕ → ℕ) (state : BusState)
    (queue : List Arrival) (out : Option CanFrame × BusState × List Arrival) : Type 0 where
  pub frames : List CanFrame
  pub left : List Arrival
  pub split : queue ≡ map arrived frames ++ left
  pub skipped : Skipped filters deadline clock frames
  pub ends : IsEnd filters deadline (clock (length frames)) state left out

module _ (filters : List CanFilter) (deadline : ℕ) (state : BusState) where
  ends_at_once :
      (clock : ℕ → ℕ) (queue : List Arrival) (out out' : Option CanFrame × BusState × List Arrival)
      → out' ≡ out
      → IsEnd filters deadline (clock 0) state queue out
      → IsReceipt filters deadline clock state queue out'
  ends_at_once clock queue out out' same h = record {
    frames = [];
    left = queue;
    split = refl;
    skipped = tt;
    ends = subst (IsEnd filters deadline (clock 0) state queue) (sym same) h;
  }

  skip_one :
      (clock : ℕ → ℕ) (frame : CanFrame) (queue : List Arrival)
      (out out' : Option CanFrame × BusState × List Arrival)
      → out' ≡ out
      → clock 0 < deadline
      → passes filters frame ≡ false
      → IsReceipt filters deadline (λ n. clock (suc n)) state queue out
      → IsReceipt filters deadline clock state (arrived frame ∷ queue) out'
  skip_one clock frame queue out out' same early bad h = record {
    frames = frame ∷ h.frames;
    left = h.left;
    split = ap (λ q. arrived frame ∷ q) h.split;
    skipped = ((early, bad), h.skipped);
    ends =
        subst (IsEnd filters deadline (clock (suc (length h.frames))) state h.left) (sym same)
          h.ends;
  }

  loop-IsReceipt :
      (clock : ℕ → ℕ) (queue : List Arrival)
      → IsReceipt filters deadline clock state queue (recv_loop filters deadline clock state queue)
  unfolding recv_loop
  loop-IsReceipt clock [] = ends_at_once clock [] _ _ refl silent
  loop-IsReceipt clock (closed ∷ queue) = elim (Bool-cases (leb deadline (clock 0))) [
    | inl over ↦
        ends_at_once clock (closed ∷ queue) _ _ (rw (over, recv_loop) refl)
          (late (ground (arith, over)))
    | inr early ↦
        ends_at_once clock (closed ∷ queue) _ _ (rw (early, recv_loop) refl)
          (hung_up (ground (arith, early)))
  ]
  loop-IsReceipt clock (arrived frame ∷ queue) = elim (Bool-cases (leb deadline (clock 0))) [
    | inl over ↦
        ends_at_once clock (arrived frame ∷ queue) _ _ (rw (over, recv_loop) refl)
          (late (ground (arith, over)))
    | inr early ↦ elim (Bool-cases (passes filters frame)) [
      | inl good ↦
          ends_at_once clock (arrived frame ∷ queue) _ _ (rw (early, good, recv_loop) refl)
            (delivers (ground (arith, early)) good)
      | inr bad ↦
          skip_one clock frame queue _ _ (rw (early, bad, recv_loop) refl) (ground (arith, early))
            bad (loop-IsReceipt (λ n. clock (suc n)) queue)
    ]
  ]

-- `recv` skips, one in each round and each before the deadline, the frames at the front of the channel
-- that do not pass the filters. Behind them it ends in one of four ways: it returns the next frame,
-- which passes the filters; its round begins at or after the deadline, so it returns none and leaves
-- the channel alone; the reader thread has ended, so it returns none and the bus is in error; or
-- nothing more arrives. What it has not taken stays in the channel.
pub recv-IsReceipt :
    (start timeout_duration : ℕ) (clock : ℕ → ℕ) (bus : Receiver)
    → let after = recv start timeout_duration clock bus in
      IsReceipt bus.filters
        (start + timeout_duration)
        clock
        bus.state
        bus.queue
        (after.0, after.1.state, after.1.queue)
unfolding recv
recv-IsReceipt start timeout_duration clock bus =
    loop-IsReceipt bus.filters (start + timeout_duration) bus.state clock bus.queue

abbrev pub little_endian : List ℕ → ℕ
little_endian [] = 0
little_endian (b ∷ bytes) = b + 256 * little_endian bytes

-- the counter after some frames
abbrev pub after_frames : DateTime → ℕ → ℕ
after_frames now zero = 0
after_frames now (suc n) = (next_frame now (after_frames now n)).1

after_frames_lem : (now : DateTime) (n : ℕ) → after_frames now n ≡ n % 2 ^ 32
unfolding next_frame
after_frames_lem now zero = refl
after_frames_lem now (suc n) = omega (arith, after_frames_lem now n)

bytes_of :
    (c : ℕ)
    → c < 2 ^ 32
    → c % 256
        + 256 * (c / 2 ^ 8 % 256 + 256 * (c / 2 ^ 16 % 256 + 256 * (c / 2 ^ 24 % 256 + 256 * 0)))
      ≡ c
bytes_of c h = omega arith

-- The mock numbers its frames: the data of the n-th frame, counted from 1, is n as an unsigned number
-- of 32 bits, which wraps, in little-endian order.
pub mock_frames_are_numbered :
    (now : DateTime) (n : ℕ)
    → little_endian (next_frame now (after_frames now n)).0.payload ≡ suc n % 2 ^ 32
unfolding next_frame
mock_frames_are_numbered now n =
    bytes_of ((after_frames now n + 1) % 2 ^ 32) (omega arith)
    ∙ omega (arith, after_frames_lem now n)
