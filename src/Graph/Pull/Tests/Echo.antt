-- ===== src/Graph/Pull/Tests/Echo.antt =====
-- A chart that reads twice what a pure node makes of a sensor's last value, which changes in between.
use nazh.Base.{
  ℕ, zero, suc, ◌≡◌, ◌∙◌, refl, sym, ap, List, none, some, Option, String, [], ◌∷◌, inl, inr, ◌⊎◌,
  Dict, lookup, insert, arith, All, str_eq, eq_iff, if◌then◌else◌, Bool-cases, Option-cases,
}
use mathlib.Core.Path.{subst}
use mathlib.Core.Option.{some_inj}
use nazh.Json.{Value, null, string, object, field, end, get_field, get_value}
use nazh.Core.Pin.{data_kind, reactive, input}
use nazh.Core.Cache.{read}
use nazh.Graph.Pull.{
  DataInEdge, EdgesByConsumer, build_edges_by_consumer, for_consumer, index_edges, PullNode,
  request_of, consumer_pin, all_untriggered,
}
use nazh.Graph.Pull.Memo.{memo_get, memo_insert}
use nazh.Graph.Pull.Payload.{
  set_field, set_fields, merge_payload, extract_pin, find_output, pick_output,
}
use nazh.Graph.Pull.Cached.{Moment, closed, read_upstream}
use nazh.Graph.Pull.Evaluate.{collect_inputs, merge_inputs, answer, pull_one, pull_inputs}
use nazh.Graph.Pull.Reference.{evaluate_one, evaluate_inputs}
use nazh.Graph.Pull.Remembered.{IsSame}
use nazh.Graph.Pull.Agrees.{Arises, IsShaped, pull_inputs-IsSame}
use nazh.Graph.Pull.Tests.{out_pin, chart_edge, fresh}

abbrev sensor : PullNode Unit
sensor = record {
  input_pins = [];
  output_pins = out_pin "out" reactive ∷ [];
  transform = λ trace_id payload. inr (object (field "out" null end) ∷ []);
}

abbrev echoed : Option (Value Unit) → String ⊎ List (Value Unit)
echoed none = inl "no input"
echoed (some v) = inr (object (field "out" v end) ∷ [])

-- a pure node whose output is its input
abbrev echo : PullNode Unit
echo = record {
  input_pins = record (out_pin "x" data_kind) { direction = input } ∷ [];
  output_pins = out_pin "out" data_kind ∷ [];
  transform = λ trace_id payload. echoed (get_value "x" payload);
}

abbrev nodes : Dict (PullNode Unit)
nodes = ("echo", echo) ∷ ("sensor", sensor) ∷ []

abbrev edges : EdgesByConsumer
edges = build_edges_by_consumer (
    record (chart_edge "sensor" "x") { to = "echo" }
    ∷ chart_edge "echo" "low"
    ∷ chart_edge "echo" "high"
    ∷ [])

abbrev reading : String → Moment Unit
reading s = record {
  caches =
      ("sensor", ("out", some (record { value = string s; produced_at = 0; trace_id = "t" })) ∷ [])
      ∷ [];
  now = 0;
  borrowed = none;
  borrowed_at = 0;
  wakeup = closed;
}

-- the sensor changes after the first read
abbrev world : ℕ → Moment Unit
world zero = reading "low"
world (suc _) = reading "high"

abbrev hash_of : Option (Value Unit) → ℕ
hash_of (some (string s)) = if str_eq s "low" then 1 else 2
hash_of _ = 0

-- a hash that tells the two readings apart
abbrev input_hash : Value Unit → ℕ
input_hash payload = hash_of (get_value "x" payload)

abbrev input_of : String → Value Unit
input_of s = object (field "x" (string s) end)

two_readings :
    (pull_inputs nodes edges input_hash "t" world 3 "chart" [] (object end) fresh).0
    ≡ inr (object (field "low" (string "low") (field "high" (string "high") end)))
unfolding index_edges merge_inputs collect_inputs pull_one answer memo_get memo_insert set_field
    set_fields merge_payload extract_pin get_field find_output pick_output all_untriggered
    request_of consumer_pin lookup insert read_upstream read get_value
two_readings = refl

inr_injective : {E : Type 0} {A : Type 0} {a b : A} → ◌≡◌ {A = E ⊎ A} (inr a) (inr b) → a ≡ b
inr_injective h = cc

IsReading : Value Unit → Type 0
IsReading p = (p ≡ input_of "low") ⊎ (p ≡ input_of "high")

echo_reads :
    (fuel tick : ℕ) (p : Value Unit)
    → (evaluate_inputs nodes edges "t" world fuel "echo" echo.input_pins (object end) tick).0
      ≡ inr p
    → IsReading p
unfolding index_edges merge_inputs collect_inputs evaluate_one set_field set_fields merge_payload
    extract_pin get_field all_untriggered request_of consumer_pin lookup insert read_upstream read
    get_value IsReading
echo_reads zero tick p h = absurd (ground (arith, h))
echo_reads (suc fuel) zero p h = inl (sym (inr_injective h))
echo_reads (suc fuel) (suc tick) p h = inr (sym (inr_injective h))

input_of_echo : (p : Value Unit) → Arises nodes edges input_hash "t" world "echo" p → IsReading p
unfolding lookup
input_of_echo p (node, fuel, tick, found, computed) =
    let same : echo ≡ node = some_inj.0 found in
    echo_reads fuel tick p (
      subst
        (λ n.
          (evaluate_inputs nodes edges "t" world fuel "echo" (PullNode.input_pins n) (object end)
            tick).0
          ≡ inr p)
        (sym same) computed)

told_apart : (p q : Value Unit) → IsReading p → IsReading q → input_hash p ≡ input_hash q → p ≡ q
unfolding IsReading get_field get_value
told_apart p q (inl a) (inl b) h = a ∙ sym b
told_apart p q (inr a) (inr b) h = a ∙ sym b
told_apart p q (inl a) (inr b) h =
    let e : ◌≡◌ {A = ℕ} 1 2 = sym (ap input_hash a) ∙ h ∙ ap input_hash b in
    absurd (omega (arith, e))
told_apart p q (inr a) (inl b) h =
    let e : ◌≡◌ {A = ℕ} 2 1 = sym (ap input_hash a) ∙ h ∙ ap input_hash b in
    absurd (omega (arith, e))

which_node :
    (id : String) (node : PullNode Unit)
    → lookup id nodes ≡ some node
    → ((id ≡ "echo") × (echo ≡ node)) ⊎ (sensor ≡ node)
unfolding lookup
which_node id node h = elim (Bool-cases (str_eq "echo" id)) [
  | inl here ↦
      let r : lookup id nodes ≡ some echo = rw (here, lookup) refl in
      inl (sym ((eq_iff "echo" id).0 here), some_inj.0 (sym r ∙ h))
  | inr other ↦ elim (Bool-cases (str_eq "sensor" id)) [
    | inl there ↦
        let r : lookup id nodes ≡ some sensor = rw (other, there, lookup) refl in
        inr (some_inj.0 (sym r ∙ h))
    | inr neither ↦
        let r : lookup id nodes ≡ none = rw (other, neither, lookup) refl in
        absurd (ground (arith, h, r))
  ]
]

agree :
    (id : String) (node : PullNode Unit) (p q : Value Unit)
    → lookup id nodes ≡ some node
    → Arises nodes edges input_hash "t" world id p
    → Arises nodes edges input_hash "t" world id q
    → input_hash p ≡ input_hash q
    → node.transform "t" p ≡ node.transform "t" q
agree id node p q found from_p from_q h = elim (which_node id node found) [
  | inl (here, _) ↦ ap (node.transform "t") (
      told_apart p q
        (input_of_echo p (subst (λ k. Arises nodes edges input_hash "t" world k p) here from_p))
        (input_of_echo q (subst (λ k. Arises nodes edges input_hash "t" world k q) here from_q)) h)
  | inr same ↦ subst (λ n. PullNode.transform n "t" p ≡ PullNode.transform n "t" q) same refl
]

abbrev IsFit : DataInEdge → Type 0
IsFit = IsShaped nodes edges input_hash "t" world

sensor_shaped :
    (p first : Value Unit) (rest : List (Value Unit))
    → sensor.transform "t" p ≡ inr (first ∷ rest)
    → (v : Value Unit) × (extract_pin first "out" ≡ some v)
unfolding extract_pin get_field
sensor_shaped p first rest h =
    let one : object (field "out" null end) ≡ first = cc in
    (null, ap (λ f. extract_pin f "out") (sym one))

echo_shaped :
    (p first : Value Unit) (rest : List (Value Unit))
    → echo.transform "t" p ≡ inr (first ∷ rest)
    → (v : Value Unit) × (extract_pin first "out" ≡ some v)
unfolding extract_pin get_field
echo_shaped p first rest h = elim (Option-cases (get_value "x" p)) [
  | inl e ↦ absurd (ground (arith, sym (ap echoed e) ∙ h))
  | inr (v, e) ↦
      let made = sym (ap echoed e) ∙ h in
      let one : object (field "out" v end) ≡ first = cc in
      (v, ap (λ f. extract_pin f "out") (sym one))
]

entry-IsFit :
    (pin source : String)
    → IsFit (record {
      consumer_input_pin_id = pin;
      upstream_node_id = source;
      upstream_output_pin_id = "out";
    })
entry-IsFit pin source node p first rest found computed = elim (which_node source node found) [
  | inl (_, same) ↦
      echo_shaped p first rest
        (subst (λ n. PullNode.transform n "t" p ≡ inr (first ∷ rest)) (sym same) computed)
  | inr same ↦
      sensor_shaped p first rest
        (subst (λ n. PullNode.transform n "t" p ≡ inr (first ∷ rest)) (sym same) computed)
]

edges-IsFit : (consumer : String) → All IsFit (for_consumer consumer edges)
unfolding index_edges lookup insert
edges-IsFit consumer = elim (Bool-cases (str_eq "echo" consumer)) [
  | inl here ↦
      let r : for_consumer consumer edges ≡ for_consumer "echo" edges = ground (arith, here) in
      subst (All IsFit) (sym r) (entry-IsFit "x" "sensor", tt)
  | inr other ↦ elim (Bool-cases (str_eq "chart" consumer)) [
    | inl there ↦
        let r : for_consumer consumer edges ≡ for_consumer "chart" edges =
          ground (arith, other, there) in
        subst (All IsFit) (sym r) (entry-IsFit "low" "echo", (entry-IsFit "high" "echo", tt))
    | inr neither ↦
        let r : for_consumer consumer edges ≡ [] = ground (arith, other, neither) in
        subst (All IsFit) (sym r) tt
  ]
]

pull_inputs-IsSame_example :
    IsSame nodes input_hash
      (Arises nodes edges input_hash "t" world)
      (pull_inputs nodes edges input_hash "t" world 3 "chart" [] (object end) fresh)
      (evaluate_inputs nodes edges "t" world 3 "chart" [] (object end) 0)
pull_inputs-IsSame_example =
    pull_inputs-IsSame nodes edges input_hash "t" world agree edges-IsFit 3 "chart" [] (object end)
      fresh tt
