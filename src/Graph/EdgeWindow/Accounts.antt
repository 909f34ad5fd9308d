-- ===== src/Graph/EdgeWindow/Accounts.antt =====
-- The summaries account for everything that was transmitted.
use nazh.Base.{
  ℕ, suc, ◌+◌, ◌-◌, ◌<◌, ◌≡◌, refl, ◌||◌, String, List, [], ◌∷◌, ◌++◌, ◌⊎◌, inl, inr, ltb, ◌==◌,
  arith, if_elim,
}
use nazh.Core.Pin.{PinKind}
use nazh.Graph.Types.{BackpressurePolicy}
use nazh.Graph.EdgeWindow.{
  new_window, EdgeWindow, EdgeTransmitSummary, WindowEvent, backpressure, summary, WindowOp,
  transmit, discard, tick, report_due, edge_window_duration, record_transmit, record_drop, do_flush,
  flush_if_ready, force_flush, step, run,
}

-- a figure of the summaries, added up
abbrev pub total : (EdgeTransmitSummary → ℕ) → List WindowEvent → ℕ
total figure [] = 0
total figure (backpressure _ ∷ events) = total figure events
total figure (summary s ∷ events) = figure s + total figure events

total-append :
    (figure : EdgeTransmitSummary → ℕ) (xs ys : List WindowEvent)
    → total figure (xs ++ ys) ≡ total figure xs + total figure ys
total-append figure [] ys = omega arith
total-append figure (backpressure _ ∷ xs) ys = total-append figure xs ys
total-append figure (summary s ∷ xs) ys = omega (arith, total-append figure xs ys)

abbrev pub transmissions : List WindowOp → ℕ
transmissions [] = 0
transmissions (transmit _ _ _ ∷ ops) = suc (transmissions ops)
transmissions (discard ∷ ops) = transmissions ops
transmissions (tick _ ∷ ops) = transmissions ops

abbrev pub bytes_sent : List WindowOp → ℕ
bytes_sent [] = 0
bytes_sent (transmit _ bytes _ ∷ ops) = bytes + bytes_sent ops
bytes_sent (discard ∷ ops) = bytes_sent ops
bytes_sent (tick _ ∷ ops) = bytes_sent ops

-- a window without transmissions has no bytes
abbrev pub IsCounted : EdgeWindow → Type 0
IsCounted w = (0 < w.transmit_count) ⊎ (w.total_payload_bytes ≡ 0)

-- what a window and the summaries so far have counted
abbrev counted : List WindowEvent × EdgeWindow → ℕ
counted out = total (λ s. s.transmit_count) out.0 + out.1.transmit_count

abbrev weighed : List WindowEvent × EdgeWindow → ℕ
weighed out = total (λ s. s.total_payload_bytes) out.0 + out.1.total_payload_bytes

abbrev Adds : ℕ → ℕ → EdgeWindow → List WindowEvent × EdgeWindow → Type 0
Adds n bytes w out =
    (counted out ≡ w.transmit_count + n)
    × (weighed out ≡ w.total_payload_bytes + bytes)
    × IsCounted out.1

step-Adds :
    (from_node : String) (op : WindowOp) (w : EdgeWindow)
    → IsCounted w
    → Adds (transmissions (op ∷ [])) (bytes_sent (op ∷ [])) w (step from_node op w)
unfolding step record_transmit record_drop flush_if_ready do_flush
step-Adds from_node (transmit depth bytes now) w h =
    if_elim (Adds 1 (bytes + 0) w) (report_due depth w)
      (λ _. (omega arith, omega arith, inl (omega arith)))
      (λ _. (omega arith, omega arith, inl (omega arith)))
step-Adds from_node discard w h = (omega arith, omega arith, h)
step-Adds from_node (tick now) w h =
    if_elim (Adds 0 0 w) (w.transmit_count == 0 || ltb (now - w.window_start) edge_window_duration)
      (λ _. (omega arith, omega arith, h)) (λ _. (omega arith, omega arith, inr refl))

one_more :
    (op : WindowOp) (ops : List WindowOp)
    → (transmissions (op ∷ ops) ≡ transmissions (op ∷ []) + transmissions ops)
      × (bytes_sent (op ∷ ops) ≡ bytes_sent (op ∷ []) + bytes_sent ops)
one_more (transmit _ bytes _) ops = (omega arith, omega arith)
one_more discard ops = (omega arith, omega arith)
one_more (tick _) ops = (omega arith, omega arith)

-- the last flush leaves nothing behind
abbrev Closes : ℕ → ℕ → EdgeWindow → List WindowEvent × EdgeWindow → Type 0
Closes n bytes w out =
    (total (λ s. s.transmit_count) out.0 ≡ w.transmit_count + n)
    × (total (λ s. s.total_payload_bytes) out.0 ≡ w.total_payload_bytes + bytes)

force_flush-Closes :
    (from_node : String) (end : ℕ) (w : EdgeWindow)
    → IsCounted w
    → Closes 0 0 w (force_flush from_node end w)
unfolding force_flush do_flush
force_flush-Closes from_node end w h =
    if_elim (Closes 0 0 w) (w.transmit_count == 0) (λ e. (ground (arith, e), ground (arith, e, h)))
      (λ _. (omega arith, omega arith))

run-Closes :
    (from_node : String) (ops : List WindowOp) (end : ℕ) (w : EdgeWindow)
    → IsCounted w
    → Closes (transmissions ops) (bytes_sent ops) w (run from_node ops end w)
unfolding run
run-Closes from_node [] end w h = force_flush-Closes from_node end w h
run-Closes from_node (op ∷ ops) end w h =
    let out = step from_node op w in
    let (count, bytes, ok) = step-Adds from_node op w h in
    let (count_after, bytes_after) = run-Closes from_node ops end out.1 ok in
    let (n, b) = one_more op ops in
    let events = (run from_node ops end out.1).0 in
    (
      omega (arith, count, count_after, n, total-append (λ s. s.transmit_count) out.0 events),
      omega (arith, bytes, bytes_after, b, total-append (λ s. s.total_payload_bytes) out.0 events),
    )

-- The summaries that the run of an edge emits, with the flush at its end, count together each
-- transmission once and every byte that was sent.
pub summaries_account :
    (from_node from_pin to_node to_pin : String) (edge_kind : PinKind) (capacity : ℕ)
    (policy : BackpressurePolicy) (now end : ℕ) (ops : List WindowOp)
    → let window = new_window from_pin to_node to_pin edge_kind capacity policy now in
      let events = (run from_node ops end window).0 in
      (total (λ s. s.transmit_count) events ≡ transmissions ops)
      × (total (λ s. s.total_payload_bytes) events ≡ bytes_sent ops)
summaries_account from_node from_pin to_node to_pin edge_kind capacity policy now end ops =
    let window = new_window from_pin to_node to_pin edge_kind capacity policy now in
    let (count, bytes) = run-Closes from_node ops end window (inr refl) in
    (omega (arith, count), omega (arith, bytes))
