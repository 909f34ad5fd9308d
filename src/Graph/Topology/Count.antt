-- ===== src/Graph/Topology/Count.antt =====
-- Occurrences in lists of node ids: two lists with the same occurrences are permutations.
use nazh.Base.{
  ℕ, suc, ◌+◌, ◌≤◌, ◌<◌, ◌≡◌, refl, ◌∙◌, ap, Bool, true, false, none, String, List, [], ◌∷◌, ◌++◌,
  str_eq, if◌then◌else◌, length, Dict, lookup, arith, eq_iff, eq_refl, Bool-cases, inl, inr,
}
use Prim.Native.String.{compare}
use nazh.Graph.Topology.{keys, is_greater, insert_sorted, sort}

abbrev pub one_if : Bool → ℕ
one_if true = 1
one_if false = 0

unfoldable pub occurs : String → List String → ℕ
occurs u [] = 0
occurs u (x ∷ xs) = one_if (str_eq x u) + occurs u xs

pub occurs-append :
    (u : String) (xs ys : List String) → occurs u (xs ++ ys) ≡ occurs u xs + occurs u ys
unfolding occurs
occurs-append u [] ys = omega arith
occurs-append u (x ∷ xs) ys = omega (arith, occurs-append u xs ys)

occurs-insert_sorted :
    (u x : String) (ys : List String)
    → occurs u (insert_sorted x ys) ≡ one_if (str_eq x u) + occurs u ys
unfolding occurs insert_sorted
occurs-insert_sorted u x [] = refl
occurs-insert_sorted u x (y ∷ ys) = elim (Bool-cases (is_greater (compare x y))) [
  | inl e ↦ rw e (omega (arith, occurs-insert_sorted u x ys))
  | inr e ↦ rw e (omega arith)
]

-- sorting is a permutation
pub occurs-sort : (u : String) (xs : List String) → occurs u (sort xs) ≡ occurs u xs
unfolding occurs sort
occurs-sort u [] = refl
occurs-sort u (x ∷ xs) =
    occurs-insert_sorted u x (sort xs) ∙ ap (λ n. one_if (str_eq x u) + n) (occurs-sort u xs)

erase : String → List String → List String
erase x [] = []
erase x (y ∷ ys) = let rest = erase x ys in if str_eq y x then ys else y ∷ rest

occurs-erase :
    (x u : String) (ys : List String)
    → 0 < occurs x ys
    → occurs u ys ≡ one_if (str_eq x u) + occurs u (erase x ys)
unfolding occurs erase
occurs-erase x u [] h = absurd (omega arith)
occurs-erase x u (y ∷ ys) h =
    ground (arith, eq_iff y x, eq_iff x u, eq_iff y u, occurs-erase x u ys)

length-erase :
    (x : String) (ys : List String) → 0 < occurs x ys → length ys ≡ suc (length (erase x ys))
unfolding occurs erase
length-erase x [] h = absurd (omega arith)
length-erase x (y ∷ ys) h = ground (arith, length-erase x ys)

pub occurs-le : (u : String) (xs : List String) → occurs u xs ≤ length xs
unfolding occurs
occurs-le u [] = omega arith
occurs-le u (x ∷ xs) = ground (arith, occurs-le u xs)

pub occurs_head : (x : String) (xs : List String) → 0 < occurs x (x ∷ xs)
unfolding occurs
occurs_head x xs = ground (arith, eq_refl x)

-- A list whose ids all occur at least as often in another is no longer than it, and has the same
-- occurrences if it is as long.
pub length-le :
    (xs ys : List String) → ((u : String) → occurs u xs ≤ occurs u ys) → length xs ≤ length ys
unfolding occurs
length-le [] ys h = omega arith
length-le (x ∷ xs) ys h =
    let there : 0 < occurs x ys = omega (arith, occurs_head x xs, h x) in
    omega (
      arith,
      length-erase x ys there,
      length-le xs (erase x ys) (λ u. omega (arith, h u, occurs-erase x u ys there)),
    )

pub occurs_full :
    (xs ys : List String)
    → ((u : String) → occurs u xs ≤ occurs u ys)
    → length xs ≡ length ys
    → (u : String) → occurs u xs ≡ occurs u ys
unfolding occurs
occurs_full [] [] h e u = refl
occurs_full [] (y ∷ ys) h e u = absurd (omega arith)
occurs_full (x ∷ xs) ys h e u =
    let there : 0 < occurs x ys = omega (arith, occurs_head x xs, h x) in
    let rest =
      occurs_full xs (erase x ys) (λ w. omega (arith, h w, occurs-erase x w ys there))
        (omega (arith, e, length-erase x ys there)) u in
    omega (arith, rest, occurs-erase x u ys there)

module _ {V : Type 0} where
  pub present : (u : String) (m : Dict V) → lookup u m ≡ none → occurs u (keys m) ≡ 0
  unfolding occurs lookup
  present u [] h = refl
  present u ((k, v) ∷ m) h = ground (arith, present u m)
