-- ===== src/Graph/Pull/Memo.antt =====
-- crates/graph/src/pull/memo.rs: the results of pure nodes, kept for a trace.
use nazh.Base.{
  ℕ, Bool, not, ◌&&◌, Option, none, some, String, str_eq, List, [], ◌∷◌, ◌==◌, if◌then◌else◌,
}
use nazh.Json.{Value}

-- an entry of the map, its key written out
pub record MemoEntry (N : Type 0) : Type 0 where
  pub node_id : String
  pub trace_id : String
  pub input_hash : ℕ
  pub payload : Value N

abbrev pub PureMemo : Type 0 → Type 0
PureMemo N = List (MemoEntry N)

module _ {N : Type 0} where
  abbrev pub has_key : String → String → ℕ → MemoEntry N → Bool
  has_key node_id trace_id hash m =
      str_eq m.node_id node_id && str_eq m.trace_id trace_id && (m.input_hash == hash)

  unfoldable pub memo_get : String → String → ℕ → PureMemo N → Option (Value N)
  memo_get node_id trace_id hash [] = none
  memo_get node_id trace_id hash (m ∷ memo) =
      let rest = memo_get node_id trace_id hash memo in
      if has_key node_id trace_id hash m then some m.payload else rest

  unfoldable pub memo_insert : MemoEntry N → PureMemo N → PureMemo N
  memo_insert entry [] = entry ∷ []
  memo_insert entry (m ∷ memo) =
      let rest = memo_insert entry memo in
      if has_key entry.node_id entry.trace_id entry.input_hash m then entry ∷ memo else m ∷ rest

  unfoldable pub clear_trace : String → PureMemo N → PureMemo N
  clear_trace trace_id [] = []
  clear_trace trace_id (m ∷ memo) =
      let rest = clear_trace trace_id memo in
      if not (str_eq m.trace_id trace_id) then m ∷ rest else rest
