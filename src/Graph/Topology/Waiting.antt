-- ===== src/Graph/Topology/Waiting.antt =====
-- Edges counted by their ends, and the edges that a node still waits for.
use nazh.Base.{
  ℕ, ◌+◌, ◌≤◌, ◌<◌, ◌≡◌, refl, ◌&&◌, String, List, [], ◌∷◌, ◌++◌, str_eq, ◌==◌, arith, eq_iff,
}
use nazh.Graph.Types.{WorkflowEdge}
use nazh.Graph.Topology.Count.{one_if, occurs, occurs-append}

-- the edges into `u`
unfoldable pub into : List WorkflowEdge → String → ℕ
into [] u = 0
into (e ∷ es) u = one_if (str_eq e.to u) + into es u

-- the edges from `v` to `u`
unfoldable pub between : List WorkflowEdge → String → String → ℕ
between [] v u = 0
between (e ∷ es) v u = one_if (str_eq e.from v && str_eq e.to u) + between es v u

-- the edges into `u` whose source is not among the ids seen
unfoldable pub waiting : List WorkflowEdge → List String → String → ℕ
waiting [] seen u = 0
waiting (e ∷ es) seen u = one_if (str_eq e.to u && (occurs e.from seen == 0)) + waiting es seen u

-- Every id comes after the sources of all the edges into it.
abbrev pub IsTopological : List WorkflowEdge → List String → List String → Type 0
IsTopological es seen [] = Unit
IsTopological es seen (u ∷ us) = (waiting es seen u ≡ 0) × IsTopological es (seen ++ u ∷ []) us

pub into-append :
    (es fs : List WorkflowEdge) (u : String) → into (es ++ fs) u ≡ into es u + into fs u
unfolding into
into-append [] fs u = omega arith
into-append (e ∷ es) fs u = omega (arith, into-append es fs u)

pub waiting_nothing_seen : (es : List WorkflowEdge) (u : String) → waiting es [] u ≡ into es u
unfolding waiting into occurs
waiting_nothing_seen [] u = refl
waiting_nothing_seen (e ∷ es) u = ground (arith, waiting_nothing_seen es u)

pub occurs_one : (x v : String) → occurs x (v ∷ []) ≡ one_if (str_eq v x)
unfolding occurs
occurs_one x v = omega arith

-- when a node is seen, its edges are no longer waited for
pub waiting_step :
    (es : List WorkflowEdge) (seen : List String) (v u : String)
    → occurs v seen ≡ 0
    → waiting es seen u ≡ waiting es (seen ++ v ∷ []) u + between es v u
unfolding waiting between
waiting_step [] seen v u h = refl
waiting_step (e ∷ es) seen v u h =
    let more = occurs-append e.from seen (v ∷ []) in
    ground (
      arith,
      more,
      occurs_one e.from v,
      eq_iff e.from v,
      eq_iff v e.from,
      waiting_step es seen v u h,
    )

pub waiting_mono :
    (es : List WorkflowEdge) (seen more : List String) (u : String)
    → ((x : String) → 0 < occurs x seen → 0 < occurs x more)
    → waiting es more u ≤ waiting es seen u
unfolding waiting
waiting_mono [] seen more u h = omega arith
waiting_mono (e ∷ es) seen more u h = ground (arith, h e.from, waiting_mono es seen more u h)
