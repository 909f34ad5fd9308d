-- ===== src/Graph/Pull/Ends.antt =====
-- The pull of data inputs ends when the data edges have no cycle.
use nazh.Base.{
  ℕ, zero, suc, ◌+◌, ◌≤◌, ◌<◌, ◌≡◌, ◌≢◌, refl, sym, ◌∙◌, ap, String, List, [], ◌∷◌, inl, inr, Dict,
  lookup, All, All-map, arith, Bool-cases, Option-cases, sum_cases,
}
use nazh.Json.{Value, object, Fields, end}
use nazh.Core.Pin.{PinDefinition}
use nazh.Graph.Classify.{ClassifiedEdges}
use nazh.Graph.Cycle.{detect_non_exec_edge_cycle}
use nazh.Graph.Cycle.Ranked.{accepted_iff_IsRanked}
use nazh.Graph.Pull.{
  DataInEdge, EdgesByConsumer, for_consumer, build_edges_by_consumer, missing_node, out_of_fuel,
  PullNode, PullRequest, is_pure_form, request_of,
}
use nazh.Graph.Pull.Payload.{set_field, merge_payload, pick_output}
use nazh.Graph.Pull.Memo.{memo_get}
use nazh.Graph.Pull.Cached.{Moment, wait_for, fall_back, read_upstream}
use nazh.Graph.Pull.Evaluate.{
  PullState, Outcome, collect_inputs, merge_inputs, pull_data_inputs, answer, answer_all, pull_one,
  pull_inputs,
}
use nazh.Graph.Pull.Descends.{Descends, index_edges-Descends, IsRanked-left}

module _ {N : Type 0} {S : Type 0}
    (pull : DataInEdge → PullRequest N → S → Outcome S (Value N)) where
  -- the pull of the entry does not run out of fuel
  abbrev Ends : DataInEdge → Type 0
  Ends entry = (request : PullRequest N) (s : S) → (pull entry request s).0 ≢ inl out_of_fuel

  collect_inputs-Ends :
      (pins : List (PinDefinition N)) (entries : List DataInEdge) (values : Fields N) (s : S)
      → All Ends entries
      → (collect_inputs pull pins entries values s).0 ≢ inl out_of_fuel
  unfolding collect_inputs
  collect_inputs-Ends pins [] values s h e = ground (arith, e)
  collect_inputs-Ends pins (entry ∷ entries) values s h e =
      let request = request_of entry.consumer_input_pin_id pins in
      let out = pull entry request s in
      elim (sum_cases out.0) [
        | inl (error, f) ↦
            let r : collect_inputs pull pins (entry ∷ entries) values s ≡ (inl error, out.1) =
              rw (f, collect_inputs) refl in
            let p : error ≡ out_of_fuel = ground (arith, ap (λ o. o.0) r, e) in
            h.0 request s (f ∙ ap inl p)
        | inr (v, f) ↦
            let r : collect_inputs pull pins (entry ∷ entries) values s
                ≡ collect_inputs pull pins entries (set_field entry.consumer_input_pin_id v values)
                    out.1 =
              rw (f, collect_inputs) refl in
            collect_inputs-Ends pins entries _ out.1 h.1 (sym (ap (λ o. o.0) r) ∙ e)
      ]

  merge_inputs-Ends :
      (pins : List (PinDefinition N)) (entries : List DataInEdge) (payload : Value N) (s : S)
      → All Ends entries
      → (merge_inputs pull pins entries payload s).0 ≢ inl out_of_fuel
  unfolding merge_inputs
  merge_inputs-Ends pins [] payload s h e = ground (arith, e)
  merge_inputs-Ends pins (entry ∷ entries) payload s h e =
      let out = collect_inputs pull pins (entry ∷ entries) end s in
      elim (sum_cases out.0) [
        | inl (error, f) ↦
            let r : merge_inputs pull pins (entry ∷ entries) payload s ≡ (inl error, out.1) =
              rw (f, merge_inputs) refl in
            let p : error ≡ out_of_fuel = ground (arith, ap (λ o. o.0) r, e) in
            collect_inputs-Ends pins (entry ∷ entries) end s h (f ∙ ap inl p)
        | inr (values, f) ↦
            let r : merge_inputs pull pins (entry ∷ entries) payload s
                ≡ (inr (merge_payload payload values), out.1) =
              rw (f, merge_inputs) refl in
            ground (arith, ap (λ o. o.0) r, e)
      ]

read_upstream_ends :
    {N : Type 0} (node pin : String) (request : PullRequest N) (moment : Moment N)
    → read_upstream node pin request moment ≢ inl out_of_fuel
unfolding read_upstream fall_back wait_for
read_upstream_ends node pin request moment h = ground (arith, h)

pick_output_ends :
    {N : Type 0} (node pin : String) (payloads : List (Value N))
    → pick_output node pin payloads ≢ inl out_of_fuel
unfolding pick_output
pick_output_ends node pin payloads h = ground (arith, h)

module _ {N : Type 0} (input_hash : Value N → ℕ) (trace_id : String) (entry : DataInEdge)
    (node : PullNode N) where
  answer_ends :
      (payload : Value N) (s : PullState N)
      → (answer input_hash trace_id entry node payload s).0 ≢ inl out_of_fuel
  unfolding answer
  answer_ends payload s h =
      let id = entry.upstream_node_id in
      let pin = entry.upstream_output_pin_id in
      elim (Option-cases (memo_get id trace_id (input_hash payload) s.memo)) [
        | inr (cached, f) ↦ ground (arith, h, f)
        | inl f ↦ elim (sum_cases (node.transform trace_id payload)) [
          | inl (error, g) ↦ ground (arith, h, f, g)
          | inr (payloads, g) ↦ ground (arith, h, f, g, pick_output_ends id pin payloads)
        ]
      ]

  answer_all_ends :
      (out : Outcome (PullState N) (Value N))
      → out.0 ≢ inl out_of_fuel
      → (answer_all input_hash trace_id entry node out).0 ≢ inl out_of_fuel
  answer_all_ends (inl error, s) ends = ends
  answer_all_ends (inr payload, s) ends = answer_ends payload s

module _ {N : Type 0} (nodes : Dict (PullNode N)) (edges : EdgesByConsumer)
    (input_hash : Value N → ℕ) (trace_id : String) (world : ℕ → Moment N) (rank : String → ℕ)
    (d : Descends rank edges) where
  pull_one-Ends :
      (fuel : ℕ) (entry : DataInEdge)
      → rank entry.upstream_node_id < fuel
      → Ends (pull_one nodes edges input_hash trace_id world fuel) entry
  unfolding pull_one
  pull_one-Ends zero entry h request s e = absurd (omega arith)
  pull_one-Ends (suc fuel) entry h request s e =
      let id = entry.upstream_node_id in
      let pull = pull_one nodes edges input_hash trace_id world in
      elim (Option-cases (lookup id nodes)) [
        | inl f ↦
            let r : pull (suc fuel) entry request s ≡ (inl (missing_node id), s) =
              rw (f, pull_one) refl in
            ground (arith, ap (λ o. o.0) r, e)
        | inr (node, f) ↦ elim (Bool-cases (is_pure_form node)) [
          | inl pure ↦
              let out = pull_data_inputs (pull fuel) edges id node.input_pins (object end) s in
              let r : pull (suc fuel) entry request s
                  ≡ answer_all input_hash trace_id entry node out =
                rw (f, pure, pull_one) refl in
              let lower =
                All-map (for_consumer id edges)
                  (λ g below. pull_one-Ends fuel g (omega (arith, h, below))) (d id) in
              let ends =
                merge_inputs-Ends (pull fuel) node.input_pins (for_consumer id edges) (object end) s
                  lower in
              answer_all_ends input_hash trace_id entry node out ends (sym (ap (λ o. o.0) r) ∙ e)
          | inr impure ↦
              let r : pull (suc fuel) entry request s ≡ (
                read_upstream id entry.upstream_output_pin_id request (world s.tick),
                record s { tick = s.tick + 1 },
              ) =
                rw (f, impure, pull_one) refl in
              read_upstream_ends id entry.upstream_output_pin_id request (world s.tick)
                (sym (ap (λ o. o.0) r) ∙ e)
        ]
      ]

  pull_inputs_ends :
      (fuel : ℕ) (consumer : String) (pins : List (PinDefinition N)) (payload : Value N)
      (s : PullState N)
      → rank consumer ≤ fuel
      → (pull_inputs nodes edges input_hash trace_id world fuel consumer pins payload s).0
        ≢ inl out_of_fuel
  pull_inputs_ends fuel consumer pins payload s h =
      merge_inputs-Ends (pull_one nodes edges input_hash trace_id world fuel) pins
        (for_consumer consumer edges) payload s
        (All-map (for_consumer consumer edges)
          (λ g below. pull_one-Ends fuel g (omega (arith, h, below))) (d consumer))

-- If the cycle check accepts the classified edges of a workflow, then for every consumer some depth of
-- recursion is enough to pull its data inputs: with this fuel or more, whatever the caches hold and the memo has,
-- the pull does not run out of fuel.
pub pull_inputs_terminates :
    {N : Type 0} (c : ClassifiedEdges) (nodes : Dict (PullNode N)) (input_hash : Value N → ℕ)
    (trace_id : String) (world : ℕ → Moment N) (consumer : String) (pins : List (PinDefinition N))
    (payload : Value N)
    → detect_non_exec_edge_cycle c ≡ inr tt
    → (enough : ℕ) × ((extra : ℕ) (s : PullState N)
        → (pull_inputs nodes
            (build_edges_by_consumer c.data_edges)
            input_hash
            trace_id
            world
            (enough + extra)
            consumer
            pins
            payload
            s).0
          ≢ inl out_of_fuel)
unfolding lookup
pull_inputs_terminates c nodes input_hash trace_id world consumer pins payload h =
    let (rank, ranked) = (accepted_iff_IsRanked c).1.0 h in
    let d =
      index_edges-Descends rank c.data_edges []
        (IsRanked-left rank c.data_edges c.reactive_edges ranked) (λ u. tt) in
    (
      rank consumer,
      λ extra s.
          pull_inputs_ends nodes (build_edges_by_consumer c.data_edges) input_hash trace_id world
            rank d (rank consumer + extra) consumer pins payload s (omega arith),
    )
