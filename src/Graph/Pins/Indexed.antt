-- ===== src/Graph/Pins/Indexed.antt =====
-- The index of the pins of each node: it is there exactly if no two pins of a direction share an id.
use nazh.Base.{
  ◌≡◌, ◌≢◌, refl, sym, ◌∙◌, ap, false, none, some, String, List, [], ◌∷◌, ◌++◌, inl, inr, Dict,
  lookup, insert, contains_key, contains_key-insert, insert_new, All, All-map, All-zip, arith,
  eq_iff, Bool-cases,
}
use nazh.Base.Results.{>>=_elim}
use mathlib.Core.List.{append_assoc, append-nil}
use nazh.Core.Pin.{PinDefinition, PinDirection, input, output}
use nazh.Graph.Classify.{find_pin}
use nazh.Graph.Pins.{NodePins, NodePinIndex, index_pins, build_pin_index, build_indexes}

module _ {N : Type 0} where
  -- no two pins have the same id
  abbrev pub Distinct : List (PinDefinition N) → Type 0
  Distinct [] = Unit
  Distinct (p ∷ ps) = All (λ q. p.id ≢ q.id) ps × Distinct ps

  abbrev pub HasDistinctPins : String × NodePins N → Type 0
  HasDistinctPins (_, pins) = Distinct pins.input_pins × Distinct pins.output_pins

  unfoldable pub by_id : List (PinDefinition N) → Dict (PinDefinition N)
  by_id [] = []
  by_id (p ∷ ps) = (p.id, p) ∷ by_id ps

  abbrev pub index_of : NodePins N → NodePinIndex N
  index_of pins = record { inputs = by_id pins.input_pins; outputs = by_id pins.output_pins }

  unfoldable pub indexes_of : Dict (NodePins N) → Dict (NodePinIndex N)
  indexes_of [] = []
  indexes_of ((id, pins) ∷ nodes) = (id, index_of pins) ∷ indexes_of nodes

  pub lookup-by_id :
      (id : String) (ps : List (PinDefinition N)) → lookup id (by_id ps) ≡ find_pin id ps
  unfolding lookup by_id find_pin
  lookup-by_id id [] = refl
  lookup-by_id id (p ∷ ps) = ground (arith, lookup-by_id id ps)

  pub lookup-indexes_of :
      (id : String) (nodes : Dict (NodePins N))
      → lookup id (indexes_of nodes)
        ≡ (elim (lookup id nodes) [ none ↦ none | some pins ↦ some (index_of pins) ])
  unfolding lookup indexes_of
  lookup-indexes_of id [] = refl
  lookup-indexes_of id ((k, pins) ∷ nodes) = ground (arith, lookup-indexes_of id nodes)

  module _ (node : String) (direction : PinDirection) where
    abbrev IsNew : Dict (PinDefinition N) → PinDefinition N → Type 0
    IsNew index p = contains_key p.id index ≡ false

    insert-IsNew_inv :
        (p q : PinDefinition N) (index : Dict (PinDefinition N))
        → IsNew (insert p.id p index) q
        → (p.id ≢ q.id) × IsNew index q
    insert-IsNew_inv p q index h =
        ground (arith, h, contains_key-insert p.id q.id p index, eq_iff p.id q.id)

    insert-IsNew :
        (p q : PinDefinition N) (index : Dict (PinDefinition N))
        → p.id ≢ q.id
        → IsNew index q
        → IsNew (insert p.id p index) q
    insert-IsNew p q index d h =
        ground (arith, h, d, contains_key-insert p.id q.id p index, eq_iff p.id q.id)

    inserted_append :
        (p : PinDefinition N) (ps : List (PinDefinition N)) (index : Dict (PinDefinition N))
        → IsNew index p
        → insert p.id p index ++ by_id ps ≡ index ++ by_id (p ∷ ps)
    unfolding by_id
    inserted_append p ps index h =
        ap (λ l. l ++ by_id ps) (insert_new p.id p index h)
        ∙ append_assoc index ((p.id, p) ∷ []) (by_id ps)

    index_pins_inv :
        (ps : List (PinDefinition N)) (index made : Dict (PinDefinition N))
        → index_pins node direction ps index ≡ inr made
        → (made ≡ index ++ by_id ps) × Distinct ps × All (IsNew index) ps
    unfolding index_pins by_id
    index_pins_inv [] index made h =
        let same : index ≡ made = cc in (sym same ∙ sym (append-nil index), tt, tt)
    index_pins_inv (p ∷ ps) index made h = elim (Bool-cases (contains_key p.id index)) [
      | inl there ↦ absurd (ground (arith, h, there))
      | inr new ↦
          let rest : index_pins node direction ps (insert p.id p index) ≡ inr made =
            ground (arith, h, new) in
          let (e, distinct, news) = index_pins_inv ps (insert p.id p index) made rest in
          (
            e ∙ inserted_append p ps index new,
            (All-map ps (λ q n. (insert-IsNew_inv p q index n).0) news, distinct),
            (new, All-map ps (λ q n. (insert-IsNew_inv p q index n).1) news),
          )
    ]

    index_pins_total :
        (ps : List (PinDefinition N)) (index : Dict (PinDefinition N))
        → Distinct ps
        → All (IsNew index) ps
        → index_pins node direction ps index ≡ inr (index ++ by_id ps)
    unfolding index_pins by_id
    index_pins_total [] index d h = ap inr (sym (append-nil index))
    index_pins_total (p ∷ ps) index d h =
        let news = All-zip ps (λ q differ new. insert-IsNew p q index differ new) d.0 h.1 in
        let rest = index_pins_total ps (insert p.id p index) d.1 news in
        let first : index_pins node direction (p ∷ ps) index
            ≡ index_pins node direction ps (insert p.id p index) =
          rw (h.0, index_pins) refl in
        first ∙ rest ∙ ap inr (inserted_append p ps index h.0)

    All-IsNew : (ps : List (PinDefinition N)) → All (IsNew []) ps
    unfolding contains_key lookup
    All-IsNew [] = tt
    All-IsNew (p ∷ ps) = (refl, All-IsNew ps)

  build_pin_index_inv :
      (node : String) (pins : NodePins N) (index : NodePinIndex N)
      → build_pin_index node pins ≡ inr index
      → (index ≡ index_of pins) × HasDistinctPins (node, pins)
  unfolding build_pin_index
  build_pin_index_inv node pins index h =
      >>=_elim (index_pins node input pins.input_pins []) _ index h (λ inputs first next.
        >>=_elim (index_pins node output pins.output_pins []) _ index next (λ outputs second made.
          let (e, d, _) = index_pins_inv node input pins.input_pins [] inputs first in
          let (f, d', _) = index_pins_inv node output pins.output_pins [] outputs second in
          (cc, (d, d'))))

  build_pin_index_total :
      (node : String) (pins : NodePins N)
      → HasDistinctPins (node, pins)
      → build_pin_index node pins ≡ inr (index_of pins)
  unfolding build_pin_index
  build_pin_index_total node pins d =
      let first =
        index_pins_total node input pins.input_pins [] d.0 (All-IsNew node input pins.input_pins) in
      let second =
        index_pins_total node output pins.output_pins [] d.1
          (All-IsNew node output pins.output_pins) in
      rw (first, second, build_pin_index) refl

  pub build_indexes_inv :
      (nodes : Dict (NodePins N)) (indexes : Dict (NodePinIndex N))
      → build_indexes nodes ≡ inr indexes
      → (indexes ≡ indexes_of nodes) × All HasDistinctPins nodes
  unfolding build_indexes indexes_of
  build_indexes_inv [] indexes h = (cc, tt)
  build_indexes_inv ((id, pins) ∷ nodes) indexes h =
      >>=_elim (build_pin_index id pins) _ indexes h (λ index first next.
        >>=_elim (build_indexes nodes) _ indexes next (λ others second made.
          let (e, d) = build_pin_index_inv id pins index first in
          let (f, ds) = build_indexes_inv nodes others second in (cc, (d, ds))))

  pub build_indexes_total :
      (nodes : Dict (NodePins N))
      → All HasDistinctPins nodes
      → build_indexes nodes ≡ inr (indexes_of nodes)
  unfolding build_indexes indexes_of
  build_indexes_total [] d = refl
  build_indexes_total ((id, pins) ∷ nodes) d =
      let first = build_pin_index_total id pins d.0 in
      let rest = build_indexes_total nodes d.1 in rw (first, rest, build_indexes) refl
