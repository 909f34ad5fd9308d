-- ===== src/Graph/Pull/Remembered.antt =====
-- What the memo holds, and the answer of a pure node with it.
use nazh.Base.{
  ℕ, ◌≡◌, refl, sym, ◌∙◌, ap, some, String, inl, inr, List, [], ◌∷◌, Dict, lookup, All, arith,
  eq_iff, Bool-cases, Option-cases, sum_cases,
}
use mathlib.Core.Path.{subst}
use mathlib.Core.Option.{some_inj}
use nazh.Json.{Value}
use nazh.Graph.Pull.{DataInEdge, PullNode, transform_failed}
use nazh.Graph.Pull.Memo.{MemoEntry, PureMemo, has_key, memo_get, memo_insert}
use nazh.Graph.Pull.Payload.{extract_pin, find_output, pick_output}
use nazh.Graph.Pull.Evaluate.{PullState, Outcome, answer, remember}
use nazh.Graph.Pull.Reference.{evaluate}

pick_output-first :
    {N : Type 0} (id pin : String) (first v : Value N) (rest : List (Value N))
    → extract_pin first pin ≡ some v
    → pick_output id pin (first ∷ rest) ≡ inr v
unfolding pick_output find_output
pick_output-first id pin first v rest h = ground (arith, h)

-- `Met` holds the inputs that come up at each node.
module _ {N : Type 0} (nodes : Dict (PullNode N)) (input_hash : Value N → ℕ)
    (Met : String → Value N → Type 0) where
  -- The entry holds the first output of its node for an input with its hash that comes up there.
  pub record IsResult (m : MemoEntry N) : Type 0 where
    pub node : PullNode N
    pub input : Value N
    pub rest : List (Value N)
    pub found : lookup m.node_id nodes ≡ some node
    pub met : Met m.node_id input
    pub hashed : input_hash input ≡ m.input_hash
    pub computed : node.transform m.trace_id input ≡ inr (m.payload ∷ rest)

  pub memo_insert-IsResult :
      (m : MemoEntry N) (memo : PureMemo N)
      → IsResult m
      → All IsResult memo
      → All IsResult (memo_insert m memo)
  unfolding memo_insert
  memo_insert-IsResult m [] r h = (r, tt)
  memo_insert-IsResult m (k ∷ memo) r h =
      elim (Bool-cases (has_key m.node_id m.trace_id m.input_hash k)) [
        | inl same ↦ rw (same, memo_insert) (r, h.1)
        | inr other ↦ rw (other, memo_insert) (h.0, memo_insert-IsResult m memo r h.1)
      ]

  -- what a hit returns
  pub memo_get-IsResult :
      (id trace_id : String) (hash : ℕ) (memo : PureMemo N) (v : Value N)
      → All IsResult memo
      → memo_get id trace_id hash memo ≡ some v
      → IsResult (record { node_id = id; trace_id = trace_id; input_hash = hash; payload = v })
  unfolding memo_get
  memo_get-IsResult id trace_id hash [] v h e = absurd (ground (arith, e))
  memo_get-IsResult id trace_id hash (m ∷ memo) v h e =
      elim (Bool-cases (has_key id trace_id hash m)) [
        | inr other ↦ memo_get-IsResult id trace_id hash memo v h.1 (ground (arith, e, other))
        | inl same ↦
            let p : m.node_id ≡ id = ground (arith, same, eq_iff m.node_id id) in
            let q : m.trace_id ≡ trace_id = ground (arith, same, eq_iff m.trace_id trace_id) in
            let n : m.input_hash ≡ hash = ground (arith, same) in
            let w : m.payload ≡ v = ground (arith, same, e) in
            let whole : m
                ≡ record { node_id = id; trace_id = trace_id; input_hash = hash; payload = v } =
              cc in
            subst IsResult whole h.0
      ]

  -- a pull with the memo and one without it: the same result, as many reads of caches, and a memo of results
  pub record IsSame {A : Type 0} (o : Outcome (PullState N) A) (p : Outcome ℕ A) : Type 0 where
    pub result : o.0 ≡ p.0
    pub kept : All IsResult o.1.memo
    pub ticks : o.1.tick ≡ p.1

  pub IsSame-of :
      {A : Type 0} (o o' : Outcome (PullState N) A) (p p' : Outcome ℕ A)
      → o ≡ o'
      → p ≡ p'
      → IsSame o' p'
      → IsSame o p
  IsSame-of o o' p p' e f h = subst (λ x. IsSame x p) (sym e) (subst (λ x. IsSame o' x) (sym f) h)

  module _ (trace_id : String) (entry : DataInEdge) (node : PullNode N)
      (found : lookup entry.upstream_node_id nodes ≡ some node)
      (agree : (p q : Value N)
        → Met entry.upstream_node_id p
        → Met entry.upstream_node_id q
        → input_hash p ≡ input_hash q
        → node.transform trace_id p ≡ node.transform trace_id q)
      (shaped : (p first : Value N) (rest : List (Value N))
        → node.transform trace_id p ≡ inr (first ∷ rest)
        → (v : Value N) × (extract_pin first entry.upstream_output_pin_id ≡ some v)) where
    abbrev id : String
    id = entry.upstream_node_id

    abbrev pin : String
    pin = entry.upstream_output_pin_id

    remember-IsResult :
        (payload : Value N) (payloads : List (Value N)) (s : PullState N)
        → node.transform trace_id payload ≡ inr payloads
        → Met id payload
        → All IsResult s.memo
        → All IsResult (remember input_hash trace_id id (input_hash payload) payloads s).memo
          × ((remember input_hash trace_id id (input_hash payload) payloads s).tick ≡ s.tick)
    remember-IsResult payload [] s e met h = (h, refl)
    remember-IsResult payload (first ∷ rest) s e met h = (
      memo_insert-IsResult _ s.memo
          (record {
            node = node;
            input = payload;
            rest = rest;
            found = found;
            met = met;
            hashed = refl;
            computed = e;
          })
          h,
      refl,
    )

    -- what a hit stands for
    remembered :
        (payload cached : Value N) (s : PullState N)
        → Met id payload
        → All IsResult s.memo
        → memo_get id trace_id (input_hash payload) s.memo ≡ some cached
        → (rest : List (Value N)) × (node.transform trace_id payload ≡ inr (cached ∷ rest))
    remembered payload cached s met h e =
        let r = memo_get-IsResult id trace_id (input_hash payload) s.memo cached h e in
        let same : r.node ≡ node = some_inj.0 (sym r.found ∙ found) in
        (
          r.rest,
          agree payload r.input met r.met (sym r.hashed)
              ∙ ap (λ n. PullNode.transform n trace_id r.input) (sym same)
              ∙ r.computed,
        )

    pub answer-IsSame :
        (payload : Value N) (s : PullState N) (tick : ℕ)
        → Met id payload
        → All IsResult s.memo
        → s.tick ≡ tick
        → IsSame
            (answer input_hash trace_id entry node payload s)
            (evaluate trace_id entry node payload, tick)
    unfolding answer evaluate
    answer-IsSame payload s tick met h same =
        elim (Option-cases (memo_get id trace_id (input_hash payload) s.memo)) [
          | inr (cached, f) ↦
              let (rest, computed) = remembered payload cached s met h f in
              let (v, has) = shaped payload cached rest computed in
              let left : answer input_hash trace_id entry node payload s ≡ (inr v, s) =
                rw (f, has, answer) refl in
              let right : evaluate trace_id entry node payload ≡ inr v =
                rw (computed, evaluate) (pick_output-first id pin cached v rest has) in
              IsSame-of _ _ _ _ left (ap (λ r. (r, tick)) right)
                (record { result = refl; kept = h; ticks = same })
          | inl f ↦ elim (sum_cases (node.transform trace_id payload)) [
            | inl (error, g) ↦
                let left : answer input_hash trace_id entry node payload s
                    ≡ (inl (transform_failed error), s) =
                  rw (f, g, answer) refl in
                let right : evaluate trace_id entry node payload ≡ inl (transform_failed error) =
                  rw (g, evaluate) refl in
                IsSame-of _ _ _ _ left (ap (λ r. (r, tick)) right)
                  (record { result = refl; kept = h; ticks = same })
            | inr (payloads, g) ↦
                let left : answer input_hash trace_id entry node payload s ≡ (
                  pick_output id pin payloads,
                  remember input_hash trace_id id (input_hash payload) payloads s,
                ) =
                  rw (f, g, answer) refl in
                let right : evaluate trace_id entry node payload ≡ pick_output id pin payloads =
                  rw (g, evaluate) refl in
                let (kept, ticks) = remember-IsResult payload payloads s g met h in
                IsSame-of _ _ _ _ left (ap (λ r. (r, tick)) right)
                  (record { result = refl; kept = kept; ticks = ticks ∙ same })
          ]
        ]
