-- ===== src/Graph/Pull/Agrees.antt =====
-- The pull of data inputs with the memo gives what the evaluation without it gives.
use nazh.Base.{
  ℕ, zero, suc, ◌+◌, ◌≡◌, refl, ap, sym, some, String, inl, inr, List, ◌∷◌, Dict, lookup, All,
  All-map, Bool-cases, Option-cases, arith, ◌⊎◌,
}
use mathlib.Core.Path.{subst}
use nazh.Json.{Value, object, end}
use nazh.Core.Pin.{PinDefinition}
use nazh.Graph.Pull.{
  DataInEdge, EdgesByConsumer, for_consumer, missing_node, PullNode, is_pure_form,
}
use nazh.Graph.Pull.Payload.{extract_pin}
use nazh.Graph.Pull.Cached.{Moment, read_upstream}
use nazh.Graph.Pull.Evaluate.{
  PullState, Outcome, pull_data_inputs, answer_all, pull_one, pull_inputs,
}
use nazh.Graph.Pull.Reference.{evaluate_all, evaluate_one, evaluate_inputs}
use nazh.Graph.Pull.Remembered.{IsResult, IsSame, IsSame-of, answer-IsSame}
use nazh.Graph.Pull.Collected.{Agree, merge_inputs-IsSame}

inr_injective : {E : Type 0} {A : Type 0} {a b : A} → ◌≡◌ {A = E ⊎ A} (inr a) (inr b) → a ≡ b
inr_injective h = cc

module _ {N : Type 0} (nodes : Dict (PullNode N)) (edges : EdgesByConsumer)
    (input_hash : Value N → ℕ) (trace_id : String) (world : ℕ → Moment N) where
  -- what the evaluation without a memo can compute as the input of a node, at any time of the world
  abbrev pub Arises : String → Value N → Type 0
  Arises id p =
      (node : PullNode N) × (fuel : ℕ) × (tick : ℕ) × (lookup id nodes ≡ some node)
      × ((evaluate_inputs nodes edges trace_id world fuel id node.input_pins (object end) tick).0
          ≡ inr p)

  -- the first output of the upstream node is an object that has the pin
  abbrev pub IsShaped : DataInEdge → Type 0
  IsShaped entry =
      (node : PullNode N) (p first : Value N) (rest : List (Value N))
      → lookup entry.upstream_node_id nodes ≡ some node
      → node.transform trace_id p ≡ inr (first ∷ rest)
      → (v : Value N) × (extract_pin first entry.upstream_output_pin_id ≡ some v)

  module _
      (agree : (id : String) (node : PullNode N) (p q : Value N)
        → lookup id nodes ≡ some node
        → Arises id p
        → Arises id q
        → input_hash p ≡ input_hash q
        → node.transform trace_id p ≡ node.transform trace_id q)
      (shaped : (consumer : String) → All IsShaped (for_consumer consumer edges)) where
    answer_all-IsSame :
        (entry : DataInEdge) (node : PullNode N) (o : Outcome (PullState N) (Value N))
        (p : Outcome ℕ (Value N))
        → lookup entry.upstream_node_id nodes ≡ some node
        → IsShaped entry
        → ((payload : Value N) → p.0 ≡ inr payload → Arises entry.upstream_node_id payload)
        → IsSame nodes input_hash Arises o p
        → IsSame nodes input_hash Arises
            (answer_all input_hash trace_id entry node o)
            (evaluate_all trace_id entry node p)
    answer_all-IsSame entry node (inl error, s) (inl error', tick) found has arises h = record {
      result = h.result;
      kept = h.kept;
      ticks = h.ticks;
    }
    answer_all-IsSame entry node (inl error, s) (inr payload, tick) found has arises h =
        absurd (ground (arith, h.result))
    answer_all-IsSame entry node (inr payload, s) (inl error, tick) found has arises h =
        absurd (ground (arith, h.result))
    answer_all-IsSame entry node (inr payload, s) (inr payload', tick) found has arises h =
        let same : payload ≡ payload' = inr_injective h.result in
        subst
          (λ x.
            IsSame nodes input_hash Arises
              (answer_all input_hash trace_id entry node (inr payload, s))
              (evaluate_all trace_id entry node (inr x, tick)))
          same
          (answer-IsSame nodes input_hash Arises trace_id entry node found
            (λ p q. agree entry.upstream_node_id node p q found)
            (λ p first rest. has node p first rest found) payload s tick
            (subst (Arises entry.upstream_node_id) (sym same) (arises payload' refl)) h.kept
            h.ticks)

    pull_one-IsSame :
        (fuel : ℕ) (entry : DataInEdge)
        → IsShaped entry
        → Agree nodes input_hash Arises
            (pull_one nodes edges input_hash trace_id world fuel)
            (evaluate_one nodes edges trace_id world fuel)
            entry
    unfolding pull_one evaluate_one
    pull_one-IsSame zero entry has request s tick kept same = record {
      result = refl;
      kept = kept;
      ticks = same;
    }
    pull_one-IsSame (suc fuel) entry has request s tick kept same =
        let id = entry.upstream_node_id in
        let pull = pull_one nodes edges input_hash trace_id world in
        let value = evaluate_one nodes edges trace_id world in
        elim (Option-cases (lookup id nodes)) [
          | inl f ↦
              let left : pull (suc fuel) entry request s ≡ (inl (missing_node id), s) =
                rw (f, pull_one) refl in
              let right : value (suc fuel) entry request tick ≡ (inl (missing_node id), tick) =
                rw (f, evaluate_one) refl in
              IsSame-of nodes input_hash Arises _ _ _ _ left right
                (record { result = refl; kept = kept; ticks = same })
          | inr (node, f) ↦ elim (Bool-cases (is_pure_form node)) [
            | inl pure ↦
                let o = pull_data_inputs (pull fuel) edges id node.input_pins (object end) s in
                let p = pull_data_inputs (value fuel) edges id node.input_pins (object end) tick in
                let left : pull (suc fuel) entry request s
                    ≡ answer_all input_hash trace_id entry node o =
                  rw (f, pure, pull_one) refl in
                let right : value (suc fuel) entry request tick
                    ≡ evaluate_all trace_id entry node p =
                  rw (f, pure, evaluate_one) refl in
                let inputs =
                  merge_inputs-IsSame nodes input_hash Arises (pull fuel) (value fuel)
                    node.input_pins (for_consumer id edges) (object end) s tick
                    (All-map (for_consumer id edges) (λ e h. pull_one-IsSame fuel e h) (shaped id))
                    kept same in
                IsSame-of nodes input_hash Arises _ _ _ _ left right
                  (answer_all-IsSame entry node o p f has (λ q e. (node, fuel, tick, f, e)) inputs)
            | inr impure ↦
                let seen = read_upstream id entry.upstream_output_pin_id request in
                let left : pull (suc fuel) entry request s
                    ≡ (seen (world s.tick), record s { tick = s.tick + 1 }) =
                  rw (f, impure, pull_one) refl in
                let right : value (suc fuel) entry request tick ≡ (seen (world tick), tick + 1) =
                  rw (f, impure, evaluate_one) refl in
                IsSame-of nodes input_hash Arises _ _ _ _ left right (record {
                  result = ap (λ t. seen (world t)) same;
                  kept = kept;
                  ticks = ap (λ t. t + 1) same;
                })
          ]
        ]

    -- If the memo holds results, no two inputs that the evaluation without a memo can compute for the
    -- same node have the same hash and different outputs, and the first output of every node on a data
    -- edge is an object with the pin of the edge, then a pull of data inputs with the memo gives the
    -- value, or the error, of the evaluation without a memo, after as many reads of caches, and leaves a
    -- memo that holds results.
    pub pull_inputs-IsSame :
        (fuel : ℕ) (consumer : String) (pins : List (PinDefinition N)) (payload : Value N)
        (s : PullState N)
        → All (IsResult nodes input_hash Arises) s.memo
        → IsSame nodes input_hash Arises
            (pull_inputs nodes edges input_hash trace_id world fuel consumer pins payload s)
            (evaluate_inputs nodes edges trace_id world fuel consumer pins payload s.tick)
    pull_inputs-IsSame fuel consumer pins payload s kept =
        merge_inputs-IsSame nodes input_hash Arises
          (pull_one nodes edges input_hash trace_id world fuel)
          (evaluate_one nodes edges trace_id world fuel) pins (for_consumer consumer edges) payload
          s s.tick
          (All-map (for_consumer consumer edges) (λ e h. pull_one-IsSame fuel e h)
            (shaped consumer))
          kept refl
