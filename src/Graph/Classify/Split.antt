-- ===== src/Graph/Classify/Split.antt =====
-- The classification of edges puts every edge into the class of its kind, in the order of the edges.
use nazh.Base.{
  ◌≡◌, refl, sym, ◌∙◌, ap, Bool, true, false, List, [], ◌∷◌, ◌++◌, inl, inr, if◌then◌else◌, Dict,
  arith, sum_cases,
}
use mathlib.Core.List.{append-nil, append_assoc}
use nazh.Core.Pin.{PinKind, exec, data_kind, reactive, PinDefinition}
use nazh.Graph.Types.{WorkflowEdge}
use nazh.Graph.Classify.{ClassifiedEdges, source_kind, push_by_kind, classify_from, classify_edges}

abbrev pub is_kind : PinKind → PinKind → Bool
is_kind exec exec = true
is_kind data_kind data_kind = true
is_kind reactive reactive = true
is_kind _ _ = false

abbrev pub class_of : PinKind → ClassifiedEdges → List WorkflowEdge
class_of exec c = c.exec_edges
class_of data_kind c = c.data_edges
class_of reactive c = c.reactive_edges

class_of-push :
    (j k : PinKind) (e : WorkflowEdge) (c : ClassifiedEdges)
    → class_of k (push_by_kind j e c) ≡ class_of k c ++ (if is_kind j k then e ∷ [] else [])
class_of-push exec exec e c = refl
class_of-push exec data_kind e c = sym (append-nil _)
class_of-push exec reactive e c = sym (append-nil _)
class_of-push data_kind exec e c = sym (append-nil _)
class_of-push data_kind data_kind e c = refl
class_of-push data_kind reactive e c = sym (append-nil _)
class_of-push reactive exec e c = sym (append-nil _)
class_of-push reactive data_kind e c = sym (append-nil _)
class_of-push reactive reactive e c = refl

class_of-nothing :
    (k : PinKind)
    → class_of k (record { exec_edges = []; data_edges = []; reactive_edges = [] }) ≡ []
class_of-nothing exec = refl
class_of-nothing data_kind = refl
class_of-nothing reactive = refl

module _ {N : Type 0} (nodes : Dict (List (PinDefinition N))) where
  -- one edge, if the pin that it leaves has the kind
  abbrev pub if_kind : PinKind → WorkflowEdge → List WorkflowEdge
  if_kind k e = elim (source_kind nodes e) [
    | inl _ ↦ []
    | inr j ↦ if is_kind j k then e ∷ [] else []
  ]

  -- the edges that leave a pin of the kind, in their order
  unfoldable pub of_kind : PinKind → List WorkflowEdge → List WorkflowEdge
  of_kind k [] = []
  of_kind k (e ∷ es) = if_kind k e ++ of_kind k es

  classify_from-of_kind :
      (k : PinKind) (es : List WorkflowEdge) (c d : ClassifiedEdges)
      → classify_from nodes es c ≡ inr d
      → class_of k d ≡ class_of k c ++ of_kind k es
  unfolding classify_from of_kind
  classify_from-of_kind k [] c d h =
      let p : c ≡ d = cc in ap (class_of k) (sym p) ∙ sym (append-nil (class_of k c))
  classify_from-of_kind k (e ∷ es) c d h = elim (sum_cases (source_kind nodes e)) [
    | inl (x, f) ↦
        let r : classify_from nodes (e ∷ es) c ≡ inl x = rw (f, classify_from) refl in
        absurd (ground (arith, h, r))
    | inr (j, f) ↦
        let r : classify_from nodes (e ∷ es) c ≡ classify_from nodes es (push_by_kind j e c) =
          rw (f, classify_from) refl in
        let one : if_kind k e ≡ (if is_kind j k then e ∷ [] else []) = rw (f, if_kind) refl in
        classify_from-of_kind k es (push_by_kind j e c) d (sym r ∙ h)
        ∙ ap (λ l. l ++ of_kind k es) (class_of-push j k e c)
        ∙ append_assoc (class_of k c) (if is_kind j k then e ∷ [] else []) (of_kind k es)
        ∙ ap (λ l. class_of k c ++ (l ++ of_kind k es)) (sym one)
  ]

  -- If `classify_edges` succeeds, each of its three classes has exactly the edges that leave a pin of
  -- its kind, in the order of the workflow's edges.
  pub classify_edges-of_kind :
      (k : PinKind) (es : List WorkflowEdge) (d : ClassifiedEdges)
      → classify_edges nodes es ≡ inr d
      → class_of k d ≡ of_kind k es
  unfolding classify_edges
  classify_edges-of_kind k es d h =
      classify_from-of_kind k es _ d h ∙ ap (λ l. l ++ of_kind k es) (class_of-nothing k)
