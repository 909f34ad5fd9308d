-- ===== src/Can/Bus.antt =====
-- What a backend hands to the nodes: `recv` of backends/slcan.rs with its filters, and the frames
-- that backends/mock.rs makes up. The channel from the reader thread is the list of what a wait for it
-- gives before the deadline. The filters stay the same during a call.
use nazh.Base.{
  ℕ, suc, leb, ◌+◌, ◌*◌, ◌/◌, ◌%◌, ◌^◌, Bool, true, false, not, ◌&&◌, ◌||◌, Option, none, some,
  List, [], ◌∷◌, if◌then◌else◌,
}
use nazh.Connections.Types.{DateTime}
use nazh.Can.Frame.{CanFrame, CanFilter, matches}
pub mod Filtered

pub data BusState : Type 0 where
  active passive error : BusState

-- what `rx.recv` gives: a frame, or that the reader thread has ended
pub data Arrival : Type 0 where
  arrived : CanFrame → Arrival
  closed : Arrival

-- the parts of `SlCanBackend` that a receiver sees
pub record Receiver : Type 0 where
  pub filters : List CanFilter
  pub state : BusState
  pub queue : List Arrival

abbrev any_matches : List CanFilter → CanFrame → Bool
any_matches [] frame = false
any_matches (filter ∷ filters) frame =
    matches filter frame.id frame.is_extended || any_matches filters frame

-- `filters.is_empty() || filters.iter().any(..)`
unfoldable pub passes : List CanFilter → CanFrame → Bool
passes [] frame = true
passes (filter ∷ filters) frame = any_matches (filter ∷ filters) frame

-- The loop of `recv`. `clock n` is the time that its n-th round reads; nothing more arrives in time once
-- the queue is empty.
unfoldable pub recv_loop :
    List CanFilter
    → ℕ
    → (ℕ → ℕ)
    → BusState
    → List Arrival
    → Option CanFrame × BusState × List Arrival
unfolding passes
recv_loop filters deadline clock state [] = (none, state, [])
recv_loop filters deadline clock state (closed ∷ queue) =
    if leb deadline (clock 0) then (none, state, closed ∷ queue) else (none, error, closed ∷ queue)
recv_loop filters deadline clock state (arrived frame ∷ queue) =
    let rest = recv_loop filters deadline (λ n. clock (suc n)) state queue in
    if leb deadline (clock 0)
    then (none, state, arrived frame ∷ queue)
    else if passes filters frame
    then (some frame, state, queue)
    else rest

-- `start` is the time at which it is called
unfoldable pub recv : ℕ → ℕ → (ℕ → ℕ) → Receiver → Option CanFrame × Receiver
unfolding recv_loop
recv start timeout_duration clock bus =
    let out = recv_loop bus.filters (start + timeout_duration) clock bus.state bus.queue in
    (out.0, record bus { state = out.1; queue = out.2 })

unfoldable pub set_filters : List CanFilter → Receiver → Receiver
set_filters filters bus = record bus { filters = filters }

unfoldable pub shutdown : Receiver → Receiver
shutdown bus = record bus { state = error }

-- `next_frame` of the mock: the frame and the counter after it
unfoldable pub next_frame : DateTime → ℕ → CanFrame × ℕ
next_frame now counter =
    let c = (counter + 1) % 2 ^ 32 in
    (
      record {
        id = 0x0C6;
        payload =
            c % 256 ∷ c / 2 ^ 8 % 256 ∷ c / 2 ^ 16 % 256 ∷ c / 2 ^ 24 % 256 ∷ 0 ∷ 0 ∷ 0 ∷ 0 ∷ [];
        dlc = 8;
        is_extended = false;
        is_fd = false;
        is_remote = false;
        timestamp = some now;
      },
      c,
    )

-- `recv` of the mock, with its filters
unfoldable pub recv_mock : List CanFilter → DateTime → ℕ → Option CanFrame × ℕ
unfolding next_frame passes
recv_mock filters now counter =
    let made = next_frame now counter in
    (if passes filters made.0 then some made.0 else none, made.1)
