-- ===== src/Graph/Pull/Collected.antt =====
-- The inputs of a node are the same with the memo as without it, if each of its entries is.
use nazh.Base.{ℕ, ◌≡◌, refl, sym, ◌∙◌, inl, inr, String, List, [], ◌∷◌, Dict, All, sum_cases}
use nazh.Json.{Value, Fields, end}
use nazh.Core.Pin.{PinDefinition}
use nazh.Graph.Pull.{DataInEdge, PullNode, PullRequest, request_of}
use nazh.Graph.Pull.Payload.{set_field, merge_payload}
use nazh.Graph.Pull.Evaluate.{PullState, Outcome, collect_inputs, merge_inputs}
use nazh.Graph.Pull.Remembered.{IsResult, IsSame, IsSame-of}

module _ {N : Type 0} (nodes : Dict (PullNode N)) (input_hash : Value N → ℕ)
    (Met : String → Value N → Type 0) where
  module _ (pull : DataInEdge → PullRequest N → PullState N → Outcome (PullState N) (Value N))
      (value : DataInEdge → PullRequest N → ℕ → Outcome ℕ (Value N)) where
    -- the two pulls of an entry agree from states that agree
    abbrev pub Agree : DataInEdge → Type 0
    Agree entry =
        (request : PullRequest N) (s : PullState N) (tick : ℕ)
        → All (IsResult nodes input_hash Met) s.memo
        → s.tick ≡ tick
        → IsSame nodes input_hash Met (pull entry request s) (value entry request tick)

    collect_inputs-IsSame :
        (pins : List (PinDefinition N)) (entries : List DataInEdge) (values : Fields N)
        (s : PullState N) (tick : ℕ)
        → All Agree entries
        → All (IsResult nodes input_hash Met) s.memo
        → s.tick ≡ tick
        → IsSame nodes input_hash Met
            (collect_inputs pull pins entries values s)
            (collect_inputs value pins entries values tick)
    unfolding collect_inputs
    collect_inputs-IsSame pins [] values s tick h kept same = record {
      result = refl;
      kept = kept;
      ticks = same;
    }
    collect_inputs-IsSame pins (entry ∷ entries) values s tick h kept same =
        let request = request_of entry.consumer_input_pin_id pins in
        let o = pull entry request s in
        let p = value entry request tick in
        let one = h.0 request s tick kept same in
        elim (sum_cases o.0) [
          | inl (error, f) ↦
              let left : collect_inputs pull pins (entry ∷ entries) values s ≡ (inl error, o.1) =
                rw (f, collect_inputs) refl in
              let g : p.0 ≡ inl error = sym one.result ∙ f in
              let right : collect_inputs value pins (entry ∷ entries) values tick
                  ≡ (inl error, p.1) =
                rw (g, collect_inputs) refl in
              IsSame-of nodes input_hash Met _ _ _ _ left right
                (record { result = refl; kept = one.kept; ticks = one.ticks })
          | inr (v, f) ↦
              let more = set_field entry.consumer_input_pin_id v values in
              let left : collect_inputs pull pins (entry ∷ entries) values s
                  ≡ collect_inputs pull pins entries more o.1 =
                rw (f, collect_inputs) refl in
              let g : p.0 ≡ inr v = sym one.result ∙ f in
              let right : collect_inputs value pins (entry ∷ entries) values tick
                  ≡ collect_inputs value pins entries more p.1 =
                rw (g, collect_inputs) refl in
              IsSame-of nodes input_hash Met _ _ _ _ left right
                (collect_inputs-IsSame pins entries more o.1 p.1 h.1 one.kept one.ticks)
        ]

    pub merge_inputs-IsSame :
        (pins : List (PinDefinition N)) (entries : List DataInEdge) (payload : Value N)
        (s : PullState N) (tick : ℕ)
        → All Agree entries
        → All (IsResult nodes input_hash Met) s.memo
        → s.tick ≡ tick
        → IsSame nodes input_hash Met
            (merge_inputs pull pins entries payload s)
            (merge_inputs value pins entries payload tick)
    unfolding merge_inputs
    merge_inputs-IsSame pins [] payload s tick h kept same = record {
      result = refl;
      kept = kept;
      ticks = same;
    }
    merge_inputs-IsSame pins (entry ∷ entries) payload s tick h kept same =
        let o = collect_inputs pull pins (entry ∷ entries) end s in
        let p = collect_inputs value pins (entry ∷ entries) end tick in
        let all = collect_inputs-IsSame pins (entry ∷ entries) end s tick h kept same in
        elim (sum_cases o.0) [
          | inl (error, f) ↦
              let left : merge_inputs pull pins (entry ∷ entries) payload s ≡ (inl error, o.1) =
                rw (f, merge_inputs) refl in
              let g : p.0 ≡ inl error = sym all.result ∙ f in
              let right : merge_inputs value pins (entry ∷ entries) payload tick
                  ≡ (inl error, p.1) =
                rw (g, merge_inputs) refl in
              IsSame-of nodes input_hash Met _ _ _ _ left right
                (record { result = refl; kept = all.kept; ticks = all.ticks })
          | inr (values, f) ↦
              let merged = inr (merge_payload payload values) in
              let left : merge_inputs pull pins (entry ∷ entries) payload s ≡ (merged, o.1) =
                rw (f, merge_inputs) refl in
              let g : p.0 ≡ inr values = sym all.result ∙ f in
              let right : merge_inputs value pins (entry ∷ entries) payload tick ≡ (merged, p.1) =
                rw (g, merge_inputs) refl in
              IsSame-of nodes input_hash Met _ _ _ _ left right
                (record { result = refl; kept = all.kept; ticks = all.ticks })
        ]
