-- ===== src/Graph/Pull/Forgetful.antt =====
-- What a hit in the memo does not find.
use nazh.Base.{
  ℕ, suc, ◌≡◌, refl, ◌∙◌, ap, true, none, some, String, inl, inr, List, [], ◌∷◌, Dict, lookup,
  str_eq, if◌then◌else◌, arith, eq_refl, eq_iff, Option-cases,
}
use nazh.Json.{Value, object, end}
use nazh.Graph.Pull.{
  DataInEdge, EdgesByConsumer, for_consumer, data_pin_cache_empty, PullNode, PullRequest,
  is_pure_form,
}
use nazh.Graph.Pull.Memo.{MemoEntry, PureMemo, memo_get, memo_insert, clear_trace}
use nazh.Graph.Pull.Payload.{extract_pin, find_output, pick_output}
use nazh.Graph.Pull.Cached.{Moment}
use nazh.Graph.Pull.Evaluate.{PullState, merge_inputs, answer, answer_all, pull_one}

memo_get-insert :
    {N : Type 0} (m : MemoEntry N) (memo : PureMemo N)
    → memo_get m.node_id m.trace_id m.input_hash (memo_insert m memo) ≡ some m.payload
unfolding memo_get memo_insert
memo_get-insert m [] = ground (arith, eq_refl m.node_id, eq_refl m.trace_id)
memo_get-insert m (k ∷ memo) =
    ground (arith, eq_refl m.node_id, eq_refl m.trace_id, memo_get-insert m memo)

pick_output-inr :
    {N : Type 0} (id pin : String) (first : Value N) (rest : List (Value N))
    → (v : Value N) × (pick_output id pin (first ∷ rest) ≡ inr v)
unfolding pick_output
pick_output-inr id pin first rest = elim (Option-cases (find_output pin (first ∷ rest))) [
  | inl f ↦ (first, rw (f, pick_output) refl)
  | inr (v, f) ↦ (v, rw (f, pick_output) refl)
]

-- what is left of the memo when a trace is cleared
memo_get-clear_trace :
    {N : Type 0} (id trace_id cleared : String) (hash : ℕ) (memo : PureMemo N)
    → memo_get id trace_id hash (clear_trace cleared memo)
      ≡ (if str_eq trace_id cleared then none else memo_get id trace_id hash memo)
unfolding memo_get clear_trace
memo_get-clear_trace id trace_id cleared hash [] = ground arith
memo_get-clear_trace id trace_id cleared hash (m ∷ memo) = ground (
  arith,
  memo_get-clear_trace id trace_id cleared hash memo,
  eq_iff m.trace_id cleared,
  eq_iff m.trace_id trace_id,
  eq_iff trace_id cleared,
)

module _ {N : Type 0} (nodes : Dict (PullNode N)) (edges : EdgesByConsumer)
    (input_hash : Value N → ℕ) (trace_id : String) (world : ℕ → Moment N) where
  alone :
      (fuel : ℕ) (entry : DataInEdge) (request : PullRequest N) (s : PullState N)
      (node : PullNode N)
      → lookup entry.upstream_node_id nodes ≡ some node
      → is_pure_form node ≡ true
      → for_consumer entry.upstream_node_id edges ≡ []
      → pull_one nodes edges input_hash trace_id world (suc fuel) entry request s
        ≡ answer input_hash trace_id entry node (object end) s
  unfolding pull_one merge_inputs
  alone fuel entry request s node found pure leaf =
      let id = entry.upstream_node_id in
      let pull = pull_one nodes edges input_hash trace_id world in
      let evaluated = λ (entries : List DataInEdge).
        answer_all input_hash trace_id entry node
          (merge_inputs (pull fuel) node.input_pins entries (object end) s) in
      let first : pull (suc fuel) entry request s ≡ evaluated (for_consumer id edges) =
        rw (found, pure, pull_one) refl in
      first ∙ ap evaluated leaf

  -- If the first output of a pure node without data inputs is not an object with the pin that is read, and the memo has no
  -- entry for it yet, then the first pull of the pin in a trace succeeds, and the next one, from the memo
  -- that it leaves, fails with `DataPinCacheEmpty`.
  pub repeated_pull_fails :
      (fuel : ℕ) (entry : DataInEdge) (request : PullRequest N) (s : PullState N)
      (node : PullNode N) (first : Value N) (rest : List (Value N))
      → lookup entry.upstream_node_id nodes ≡ some node
      → is_pure_form node ≡ true
      → for_consumer entry.upstream_node_id edges ≡ []
      → node.transform trace_id (object end) ≡ inr (first ∷ rest)
      → extract_pin first entry.upstream_output_pin_id ≡ none
      → memo_get entry.upstream_node_id trace_id (input_hash (object end)) s.memo ≡ none
      → let pull = pull_one nodes edges input_hash trace_id world (suc fuel) entry request in
        ((v : Value N) × ((pull s).0 ≡ inr v))
        × ((pull (pull s).1).0
            ≡ inl (data_pin_cache_empty entry.upstream_node_id entry.upstream_output_pin_id))
  unfolding answer
  repeated_pull_fails fuel entry request s node first rest found pure leaf outputs lacks miss =
      let id = entry.upstream_node_id in
      let pin = entry.upstream_output_pin_id in
      let hash = input_hash (object end) in
      let pull = pull_one nodes edges input_hash trace_id world (suc fuel) entry request in
      let entry_made : MemoEntry N = record {
        node_id = id;
        trace_id = trace_id;
        input_hash = hash;
        payload = first;
      } in
      let after : PullState N = record s { memo = memo_insert entry_made s.memo } in
      let once : pull s ≡ (pick_output id pin (first ∷ rest), after) =
        alone fuel entry request s node found pure leaf ∙ rw (miss, outputs, answer) refl in
      let (v, picked) = pick_output-inr id pin first rest in
      let hit = memo_get-insert entry_made s.memo in
      let twice : pull after ≡ (inl (data_pin_cache_empty id pin), after) =
        alone fuel entry request after node found pure leaf ∙ rw (hit, lacks, answer) refl in
      ((v, ap (λ o. o.0) once ∙ picked), ap (λ o. (pull o.1).0) once ∙ ap (λ o. o.0) twice)
