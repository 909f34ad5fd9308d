-- ===== src/Graph/Cycle/Tally.antt =====
-- What the loop over the combined edges collects, with every end of an edge as a key.
use nazh.Base.{
  ℕ, ◌+◌, ◌≤◌, ◌<◌, ◌≡◌, refl, sym, ◌∙◌, ap, none, some, String, List, [], ◌∷◌, ◌&&◌, str_eq,
  if◌then◌else◌, ◌==◌, Dict, lookup, insert, contains_key, lookup-insert, inl, inr, arith, eq_iff,
  eq_refl, Option-cases,
}
use mathlib.Core.Path.{subst}
use nazh.Graph.Types.{WorkflowEdge}
use nazh.Graph.Topology.{keys, push_edge, Degrees, neighbors}
use nazh.Graph.Topology.Count.{one_if, occurs}
use nazh.Graph.Topology.Waiting.{into, between}
use nazh.Graph.Topology.Degrees.{IsCollected, Joined, push_edge-neighbors, contains_key-occurs}
use nazh.Graph.Cycle.{touch, count_target}
use nazh.Graph.Cycle.Names.{add_all}

-- the count of an id, 0 for one that is no key
abbrev pub tally : Dict ℕ → String → ℕ
tally m u = elim (lookup u m) [ none ↦ 0 | some n ↦ n ]

keys-insert :
    (u k : String) (v : ℕ) (m : Dict ℕ)
    → occurs u (keys (insert k v m))
      ≡ (if str_eq k u && occurs u (keys m) == 0 then 1 else occurs u (keys m))
unfolding occurs insert
keys-insert u k v [] = ground arith
keys-insert u k v ((j, x) ∷ m) =
    ground (arith, keys-insert u k v m, eq_iff j k, eq_iff k u, eq_iff j u)

-- one more key, with a count that has changed by `by`
record IsRaised (k : String) (by : ℕ) (m m' : Dict ℕ) : Type 0 where
  count : (u : String) → tally m' u ≡ tally m u + (if str_eq k u then by else 0)
  single : (u : String) → occurs u (keys m) ≤ 1 → occurs u (keys m') ≤ 1
  kept : (u : String) → 0 < occurs u (keys m) → 0 < occurs u (keys m')
  there : 0 < occurs k (keys m')

insert-IsRaised : (k : String) (by : ℕ) (m : Dict ℕ) → IsRaised k by m (insert k (tally m k + by) m)
insert-IsRaised k by m = record {
  count = λ u. ground (arith, lookup-insert k u (tally m k + by) m, eq_iff k u);
  single = λ u h. ground (arith, h, keys-insert u k (tally m k + by) m);
  kept = λ u h. ground (arith, h, keys-insert u k (tally m k + by) m);
  there = ground (arith, keys-insert k k (tally m k + by) m, eq_refl k);
}

touch-IsRaised : (k : String) (m : Dict ℕ) → IsRaised k 0 m (touch k m)
unfolding touch contains_key
touch-IsRaised k m = elim (Option-cases (lookup k m)) [
  | inl new ↦
      let r : touch k m ≡ insert k (tally m k + 0) m = ground (arith, new) in
      subst (IsRaised k 0 m) (sym r) (insert-IsRaised k 0 m)
  | inr (n, old) ↦
      let r : touch k m ≡ m = ground (arith, old) in
      subst (IsRaised k 0 m) (sym r) (record {
        count = λ u. ground arith;
        single = λ u h. h;
        kept = λ u h. h;
        there = ground (arith, old, contains_key-occurs k m);
      })
]

count_target-IsRaised : (k : String) (m : Dict ℕ) → IsRaised k 1 m (count_target k m)
unfolding count_target
count_target-IsRaised k m =
    let r : count_target k m ≡ insert k (tally m k + 1) m = ground arith in
    subst (IsRaised k 1 m) (sym r) (insert-IsRaised k 1 m)

-- what the loop has collected
pub record IsTallied (c : String → ℕ) (b : String → String → ℕ) (d : Degrees) : Type 0 where
  pub count : (u : String) → tally d.0 u ≡ c u
  pub single : (u : String) → occurs u (keys d.0) ≤ 1
  pub lists : (v u : String) → into (neighbors d.1 v) u ≡ b v u

abbrev with_edge : WorkflowEdge → Degrees → Degrees
with_edge e d = (count_target e.to (touch e.from d.0), push_edge e d.1)

module _ (e : WorkflowEdge) (d : Degrees) where
  abbrev first : IsRaised e.from 0 d.0 (touch e.from d.0)
  first = touch-IsRaised e.from d.0

  abbrev second : IsRaised e.to 1 (touch e.from d.0) (with_edge e d).0
  second = count_target-IsRaised e.to (touch e.from d.0)

  step-IsTallied :
      (c : String → ℕ) (b : String → String → ℕ)
      → IsTallied c b d
      → IsTallied
          (λ u. c u + one_if (str_eq e.to u))
          (λ v u. b v u + one_if (str_eq e.from v && str_eq e.to u))
          (with_edge e d)
  step-IsTallied c b h = record {
    count = λ u. ground (arith, first.count u, second.count u, h.count u);
    single = λ u. second.single u (first.single u (h.single u));
    lists = λ v u.
        push_edge-neighbors e v u d.1
        ∙ ap (λ n. n + one_if (str_eq e.from v && str_eq e.to u)) (h.lists v u);
  }

  step_keeps : (x : String) → 0 < occurs x (keys d.0) → 0 < occurs x (keys (with_edge e d).0)
  step_keeps x h = second.kept x (first.kept x h)

  ends_there :
      (0 < occurs e.from (keys (with_edge e d).0)) × (0 < occurs e.to (keys (with_edge e d).0))
  ends_there = (second.kept e.from first.there, second.there)

add_all_keeps :
    (es : List WorkflowEdge) (d : Degrees) (x : String)
    → 0 < occurs x (keys d.0)
    → 0 < occurs x (keys (add_all es d).0)
unfolding add_all
add_all_keeps [] d x h = h
add_all_keeps (e ∷ es) d x h = add_all_keeps es (with_edge e d) x (step_keeps e d x h)

IsTallied-ext :
    (c c' : String → ℕ) (b b' : String → String → ℕ) (d : Degrees)
    → ((u : String) → c u ≡ c' u)
    → ((v u : String) → b v u ≡ b' v u)
    → IsTallied c b d
    → IsTallied c' b' d
IsTallied-ext c c' b b' d hc hb h = record {
  count = λ u. h.count u ∙ hc u;
  single = h.single;
  lists = λ v u. h.lists v u ∙ hb v u;
}

add_all-IsTallied :
    (es : List WorkflowEdge) (c : String → ℕ) (b : String → String → ℕ) (d : Degrees)
    → IsTallied c b d
    → IsTallied (λ u. c u + into es u) (λ v u. b v u + between es v u) (add_all es d)
unfolding add_all into between
add_all-IsTallied [] c b d h = IsTallied-ext c _ b _ d (λ u. omega arith) (λ v u. omega arith) h
add_all-IsTallied (e ∷ es) c b d h =
    IsTallied-ext _ _ _ _ (add_all es (with_edge e d)) (λ u. omega arith) (λ v u. omega arith)
      (add_all-IsTallied es _ _ (with_edge e d) (step-IsTallied e d c b h))

pub add_all-Joined : (es : List WorkflowEdge) (d : Degrees) → Joined (keys (add_all es d).0) es
unfolding add_all
add_all-Joined [] d = tt
add_all-Joined (e ∷ es) d =
    let (source, target) = ends_there e d in
    (
      (
        add_all_keeps es (with_edge e d) e.from source,
        add_all_keeps es (with_edge e d) e.to target,
      ),
      add_all-Joined es (with_edge e d),
    )

-- what the loop has collected at its end, for Kahn's algorithm
module _ (es : List WorkflowEdge) where
  tallied : IsTallied (into es) (between es) (add_all es ([], []))
  unfolding occurs lookup into
  tallied =
      IsTallied-ext _ _ _ _ _ (λ u. omega arith) (λ v u. omega arith)
        (add_all-IsTallied es (λ u. 0) (λ v u. 0) ([], [])
          (record { count = λ u. refl; single = λ u. omega arith; lists = λ v u. refl }))

  pub unique_keys : (u : String) → occurs u (keys (add_all es ([], [])).0) ≤ 1
  unique_keys = tallied.single

  pub add_all-IsCollected :
      let d = add_all es ([], []) in IsCollected (keys d.0) (into es) (between es) d
  unfolding contains_key
  add_all-IsCollected = record {
    counts = record {
      at = λ u. ground (arith, tallied.count u, contains_key-occurs u (add_all es ([], [])).0);
      ids_kept = λ u. refl;
    };
    lists = tallied.lists;
  }
