-- ===== src/Graph/EdgeWindow/Tests.antt =====
-- A run of the window of an edge to a channel of ten places.
use nazh.Base.{ℕ, ◌+◌, ◌≡◌, refl, false, List, [], ◌∷◌}
use nazh.Core.Pin.{PinKind}
use nazh.Graph.Types.{BackpressurePolicy}
use nazh.Graph.EdgeWindow.{
  EdgeWindow, new_window, WindowEvent, backpressure, summary, WindowOp, transmit, discard, tick,
  run,
}
use nazh.Graph.EdgeWindow.Reports.{OncePerWindow, run-OncePerWindow}
use nazh.Graph.EdgeWindow.Accounts.{total, transmissions, bytes_sent, summaries_account}

abbrev window : EdgeWindow
window = new_window "out" "b" "in" PinKind.exec 10 BackpressurePolicy.drop_newest 0

abbrev ops : List WindowOp
ops =
    transmit 8 100 1
    ∷ transmit 9 50 2
    ∷ discard
    ∷ tick 50
    ∷ tick 100000000
    ∷ transmit 8 10 100000001
    ∷ []

abbrev dropped : List WindowEvent → ℕ
dropped [] = 0
dropped (summary _ ∷ events) = dropped events
dropped (backpressure b ∷ events) = b.dropped_since_last_report + dropped events

-- The dropped message stands in no report.
drop_unreported : dropped (run "a" ops 100000002 window).0 ≡ 0
unfolding run
drop_unreported = refl

run-OncePerWindow_example : OncePerWindow false (run "a" ops 100000002 window).0
run-OncePerWindow_example = run-OncePerWindow "a" ops 100000002 window

summaries_account_example :
    (total (λ s. s.transmit_count) (run "a" ops 100000002 window).0 ≡ transmissions ops)
    × (total (λ s. s.total_payload_bytes) (run "a" ops 100000002 window).0 ≡ bytes_sent ops)
summaries_account_example =
    summaries_account "a" "out" "b" "in" PinKind.exec 10 BackpressurePolicy.drop_newest 0 100000002
      ops
