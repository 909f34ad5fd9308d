-- ===== src/Graph/EdgeWindow.antt =====
-- The statistics of one edge, crates/graph/src/edge_window.rs. What a call emits is the list of its
-- events; whether the event channel takes them (`try_send`) does not change the window. A time is the
-- number of nanoseconds of the monotonic clock. A `+=` stands for the exact sum: the counters of one
-- window have 64 bits.
use nazh.Base.{
  ℕ, suc, ◌+◌, ◌-◌, ◌*◌, ◌≤◌, max, Bool, true, false, not, ◌&&◌, ◌||◌, String, List, [], ◌∷◌, ◌++◌,
  ltb, leb, ◌==◌, if◌then◌else◌,
}
use nazh.Core.Pin.{PinKind}
use nazh.Graph.Types.{BackpressurePolicy}
pub mod Reports
pub mod Accounts
mod Tests

pub record EdgeWindow : Type 0 where
  pub from_pin : String
  pub to_node : String
  pub to_pin : String
  pub edge_kind : PinKind
  pub channel_capacity : ℕ
  pub transmit_count : ℕ
  pub max_queue_depth : ℕ
  pub queue_depth_sum : ℕ
  pub total_payload_bytes : ℕ
  pub window_start : ℕ
  pub backpressure_reported : Bool
  pub policy : BackpressurePolicy
  pub dropped_in_window : ℕ

-- the average depth of the queue is the quotient of `queue_depth_sum` and `transmit_count`
pub record EdgeTransmitSummary : Type 0 where
  pub from_node : String
  pub from_pin : String
  pub to_node : String
  pub to_pin : String
  pub edge_kind : PinKind
  pub transmit_count : ℕ
  pub max_queue_depth : ℕ
  pub queue_depth_sum : ℕ
  pub total_payload_bytes : ℕ
  pub window_started_at : ℕ
  pub window_ended_at : ℕ

pub record BackpressureDetected : Type 0 where
  pub at_node : String
  pub incoming_pin : String
  pub channel_capacity : ℕ
  pub channel_depth : ℕ
  pub policy : BackpressurePolicy
  pub dropped_since_last_report : ℕ
  pub detected_at : ℕ

pub data WindowEvent : Type 0 where
  backpressure : BackpressureDetected → WindowEvent
  summary : EdgeTransmitSummary → WindowEvent

-- 100 ms
abbrev pub edge_window_duration : ℕ
edge_window_duration = 100000000

-- `EdgeWindow::new`
abbrev pub new_window : String → String → String → PinKind → ℕ → BackpressurePolicy → ℕ → EdgeWindow
new_window from_pin to_node to_pin edge_kind channel_capacity policy now = record {
  from_pin = from_pin;
  to_node = to_node;
  to_pin = to_pin;
  edge_kind = edge_kind;
  channel_capacity = channel_capacity;
  transmit_count = 0;
  max_queue_depth = 0;
  queue_depth_sum = 0;
  total_payload_bytes = 0;
  window_start = now;
  backpressure_reported = false;
  policy = policy;
  dropped_in_window = 0;
}

abbrev pub report_due : ℕ → EdgeWindow → Bool
report_due queue_depth w =
    not w.backpressure_reported
    && ltb 0 w.channel_capacity
    && leb (w.channel_capacity * 8) (queue_depth * 10)

-- `record`, without its log line, which alone names the edge's source
unfoldable pub record_transmit : ℕ → ℕ → ℕ → EdgeWindow → List WindowEvent × EdgeWindow
record_transmit queue_depth payload_bytes now w =
    let counted : EdgeWindow = record w {
      transmit_count = w.transmit_count + 1;
      max_queue_depth = max w.max_queue_depth queue_depth;
      queue_depth_sum = w.queue_depth_sum + queue_depth;
      total_payload_bytes = w.total_payload_bytes + payload_bytes;
    } in
    if report_due queue_depth w
    then (
      backpressure (record {
        at_node = w.to_node;
        incoming_pin = w.to_pin;
        channel_capacity = w.channel_capacity;
        channel_depth = queue_depth;
        policy = w.policy;
        dropped_since_last_report = w.dropped_in_window;
        detected_at = now;
      })
          ∷ [],
      record counted { backpressure_reported = true },
    )
    else ([], counted)

unfoldable pub record_drop : EdgeWindow → EdgeWindow
record_drop w = record w { dropped_in_window = w.dropped_in_window + 1 }

unfoldable pub do_flush : String → ℕ → EdgeWindow → List WindowEvent × EdgeWindow
do_flush from_node now w = (
  summary (record {
    from_node = from_node;
    from_pin = w.from_pin;
    to_node = w.to_node;
    to_pin = w.to_pin;
    edge_kind = w.edge_kind;
    transmit_count = w.transmit_count;
    max_queue_depth = w.max_queue_depth;
    queue_depth_sum = w.queue_depth_sum;
    total_payload_bytes = w.total_payload_bytes;
    window_started_at = w.window_start;
    window_ended_at = now;
  })
      ∷ [],
  record w {
    transmit_count = 0;
    max_queue_depth = 0;
    queue_depth_sum = 0;
    total_payload_bytes = 0;
    backpressure_reported = false;
    dropped_in_window = 0;
    window_start = now;
  },
)

unfoldable pub flush_if_ready : String → ℕ → EdgeWindow → List WindowEvent × EdgeWindow
unfolding do_flush
flush_if_ready from_node now w =
    if w.transmit_count == 0 || ltb (now - w.window_start) edge_window_duration
    then ([], w)
    else do_flush from_node now w

unfoldable pub force_flush : String → ℕ → EdgeWindow → List WindowEvent × EdgeWindow
unfolding do_flush
force_flush from_node now w = if w.transmit_count == 0 then ([], w) else do_flush from_node now w

-- what the runner does with a window
pub data WindowOp : Type 0 where
  transmit : ℕ → ℕ → ℕ → WindowOp
  discard : WindowOp
  tick : ℕ → WindowOp

unfoldable pub step : String → WindowOp → EdgeWindow → List WindowEvent × EdgeWindow
unfolding record_transmit record_drop flush_if_ready
step from_node (transmit queue_depth bytes now) w = record_transmit queue_depth bytes now w
step from_node discard w = ([], record_drop w)
step from_node (tick now) w = flush_if_ready from_node now w

-- the runner's loop over one edge, which ends with `force_flush`
unfoldable pub run : String → List WindowOp → ℕ → EdgeWindow → List WindowEvent × EdgeWindow
unfolding step force_flush
run from_node [] end w = force_flush from_node end w
run from_node (op ∷ ops) end w =
    let out = step from_node op w in
    let rest = run from_node ops end out.1 in (out.0 ++ rest.0, rest.1)
