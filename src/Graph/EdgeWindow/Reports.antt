-- ===== src/Graph/EdgeWindow/Reports.antt =====
-- Backpressure is reported once in a window.
use nazh.Base.{
  ℕ, ◌-◌, ◌≡◌, Bool, true, false, ◌||◌, String, List, [], ◌∷◌, ◌++◌, ltb, ◌==◌, arith, if_elim,
}
use nazh.Graph.EdgeWindow.{
  EdgeWindow, WindowEvent, backpressure, summary, WindowOp, transmit, discard, tick, report_due,
  edge_window_duration, record_transmit, record_drop, flush_if_ready, force_flush, step, run,
}

-- that between two summaries there is one report at most, and none if there was one before
abbrev pub OncePerWindow : Bool → List WindowEvent → Type 0
OncePerWindow reported [] = Unit
OncePerWindow reported (summary _ ∷ events) = OncePerWindow false events
OncePerWindow reported (backpressure _ ∷ events) = (reported ≡ false) × OncePerWindow true events

-- what a step leaves for the rest of the run
abbrev Continues : Bool → List WindowEvent × EdgeWindow → Type 0
Continues reported out =
    (rest : List WindowEvent)
    → OncePerWindow out.1.backpressure_reported rest
    → OncePerWindow reported (out.0 ++ rest)

transmit-Continues :
    (depth bytes now : ℕ) (w : EdgeWindow)
    → Continues w.backpressure_reported (record_transmit depth bytes now w)
unfolding record_transmit
transmit-Continues depth bytes now w =
    if_elim (Continues w.backpressure_reported) (report_due depth w)
      (λ due rest h. (ground (arith, due), h)) (λ _ rest h. h)

flush-Continues :
    (from_node : String) (now : ℕ) (w : EdgeWindow)
    → Continues w.backpressure_reported (flush_if_ready from_node now w)
unfolding flush_if_ready
flush-Continues from_node now w =
    if_elim (Continues w.backpressure_reported)
      (w.transmit_count == 0 || ltb (now - w.window_start) edge_window_duration) (λ _ rest h. h)
      (λ _ rest h. h)

step-Continues :
    (from_node : String) (op : WindowOp) (w : EdgeWindow)
    → Continues w.backpressure_reported (step from_node op w)
unfolding step record_drop
step-Continues from_node (transmit depth bytes now) w = transmit-Continues depth bytes now w
step-Continues from_node discard w = λ rest h. h
step-Continues from_node (tick now) w = flush-Continues from_node now w

-- In the events of a run, there is at most one report of backpressure before the first summary, between
-- two summaries and after the last one, and none before the first summary if the window had reported
-- already.
pub run-OncePerWindow :
    (from_node : String) (ops : List WindowOp) (end : ℕ) (w : EdgeWindow)
    → OncePerWindow w.backpressure_reported (run from_node ops end w).0
unfolding run force_flush
run-OncePerWindow from_node [] end w =
    if_elim (λ (out : List WindowEvent × EdgeWindow). OncePerWindow w.backpressure_reported out.0)
      (w.transmit_count == 0) (λ _. tt) (λ _. tt)
run-OncePerWindow from_node (op ∷ ops) end w =
    let out = step from_node op w in
    step-Continues from_node op w (run from_node ops end out.1).0
      (run-OncePerWindow from_node ops end out.1)
