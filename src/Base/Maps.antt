-- ===== src/Base/Maps.antt =====
-- `HashMap<String, V>` as an association list: the program never relies on the order of its entries.
use Prim.Native.String.{String}
use mathlib.Core.Path.{◌≡◌, refl}
use mathlib.Core.Bool.{Bool, true, false}
use mathlib.Core.Option.{Option, none, some}
use mathlib.Core.List.{List, [], ◌∷◌, ◌++◌}
use native.Mathlib.Omega.{arith}
use text.Mathlib.TextEquality.{eq_iff}
use text.Mathlib.Text.{◌==◌ as str_eq}
use nazh.Base.Tests.{if◌then◌else◌}

abbrev pub Dict {ℓ} : Type ℓ → Type ℓ
Dict V = List (String × V)

module _ {ℓ} {V : Type ℓ} where
  -- `remove`: no entry of the key is left
  unfoldable pub remove : String → Dict V → Dict V
  remove key [] = []
  remove key (entry ∷ entries) =
      let rest = remove key entries in if str_eq entry.0 key then rest else entry ∷ rest

  -- `get`, with the value cloned
  unfoldable pub lookup : String → Dict V → Option V
  lookup key [] = none
  lookup key (entry ∷ entries) =
      let rest = lookup key entries in if str_eq entry.0 key then some entry.1 else rest

  -- `insert`: the value of the key is replaced
  unfoldable pub insert : String → V → Dict V → Dict V
  insert key value [] = (key, value) ∷ []
  insert key value (entry ∷ entries) =
      let rest = insert key value entries in
      if str_eq entry.0 key then (key, value) ∷ entries else entry ∷ rest

  unfoldable pub contains_key : String → Dict V → Bool
  unfolding lookup
  contains_key key entries = elim (lookup key entries) [ some _ ↦ true | none ↦ false ]

  pub lookup-remove :
      (key other : String) (entries : Dict V)
      → lookup other (remove key entries)
        ≡ (if str_eq key other then none else lookup other entries)
  unfolding lookup remove
  lookup-remove key other [] = ground arith
  lookup-remove key other (entry ∷ entries) =
      let at_rest = lookup-remove key other entries in
      ground (arith, at_rest, eq_iff entry.0 other, eq_iff key other, eq_iff entry.0 key)

  pub lookup-insert :
      (key other : String) (value : V) (entries : Dict V)
      → lookup other (insert key value entries)
        ≡ (if str_eq key other then some value else lookup other entries)
  unfolding lookup insert
  lookup-insert key other value [] = refl
  lookup-insert key other value (entry ∷ entries) =
      let at_rest = lookup-insert key other value entries in
      ground (arith, at_rest, eq_iff entry.0 other, eq_iff key other, eq_iff entry.0 key)

  pub contains_key-insert :
      (key other : String) (value : V) (entries : Dict V)
      → contains_key other (insert key value entries)
        ≡ (if str_eq key other then true else contains_key other entries)
  unfolding contains_key
  contains_key-insert key other value entries =
      ground (arith, lookup-insert key other value entries)

  -- A new key's entry is the last.
  pub insert_new :
      (key : String) (value : V) (entries : Dict V)
      → contains_key key entries ≡ false
      → insert key value entries ≡ entries ++ (key, value) ∷ []
  unfolding contains_key lookup insert
  insert_new key value [] h = refl
  insert_new key value (entry ∷ entries) h = ground (arith, insert_new key value entries)
