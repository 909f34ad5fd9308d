-- ===== src/Json.antt =====
-- What the crates use of `serde_json`: the enum `Value` that they match on, and `Number` behind an
-- interface. A `Map` is the list of its fields.
use nazh.Base.{
  ℕ, suc, not, ◌&&◌, ◌==◌, ◌≤◌, ◌≡◌, Bool, true, false, Option, none, some, String, str_eq,
  if◌then◌else◌, u64_max,
}

-- `serde_json::Number`, with what its documentation says of `as_u64` and `is_u64`.
pub record JsonNumber : Type 1 where
  pub Number : Type 0
  pub is_i64 : Number → Bool
  pub is_u64 : Number → Bool
  pub as_u64 : Number → Option ℕ
  pub equal : Number → Number → Bool
  pub as_u64_range : (n : Number) (v : ℕ) → as_u64 n ≡ some v → v ≤ u64_max
  pub is_u64_iff : (n : Number) → is_u64 n ≡ (elim (as_u64 n) [ none ↦ false | some _ ↦ true ])
  pub equal_refl : (n : Number) → equal n n ≡ true

mutual
  pub data Value (N : Type 0) : Type 0 where
    null : Value N
    bool : Bool → Value N
    number : N → Value N
    string : String → Value N
    array : Items N → Value N
    object : Fields N → Value N

  pub data Items (N : Type 0) : Type 0 where
    nil : Items N
    cons : Value N → Items N → Items N

  pub data Fields (N : Type 0) : Type 0 where
    end : Fields N
    field : String → Value N → Fields N → Fields N

module _ {N : Type 0} where
  unfoldable pub get_field : String → Fields N → Option (Value N)
  get_field k end = none
  get_field k (field j v fs) = if str_eq j k then some v else get_field k fs

  -- `Value::as_object`
  abbrev pub as_object : Value N → Option (Fields N)
  as_object (object fs) = some fs
  as_object _ = none

  -- `Value::as_str`
  abbrev pub as_str : Value N → Option String
  as_str (string s) = some s
  as_str _ = none

  -- `Value::get` with a text key
  unfoldable pub get_value : String → Value N → Option (Value N)
  unfolding get_field
  get_value k (object fs) = get_field k fs
  get_value k _ = none

-- `Value::as_u64`
abbrev pub as_u64 : (J : JsonNumber) → Value J.Number → Option ℕ
as_u64 J (number n) = J.as_u64 n
as_u64 J _ = none

module _ (J : JsonNumber) where
  open J use {Number, equal}

  abbrev count_fields : Fields Number → ℕ
  count_fields end = 0
  count_fields (field _ _ fs) = suc (count_fields fs)

  -- `Value::eq`; two maps are equal if they have as many fields and each field of one is in the other
  unfoldable mutual
    pub value_eq : Value Number → Value Number → Bool
    value_eq null null = true
    value_eq (bool true) (bool b) = b
    value_eq (bool false) (bool b) = not b
    value_eq (number m) (number n) = equal m n
    value_eq (string s) (string t) = str_eq s t
    value_eq (array xs) (array ys) = items_eq xs ys
    value_eq (object fs) (object gs) = (count_fields fs == count_fields gs) && fields_in fs gs
    value_eq _ _ = false

    pub items_eq : Items Number → Items Number → Bool
    items_eq nil nil = true
    items_eq (cons v vs) (cons w ws) = value_eq v w && items_eq vs ws
    items_eq _ _ = false

    pub fields_in : Fields Number → Fields Number → Bool
    fields_in end gs = true
    fields_in (field k v fs) gs =
        elim (get_field k gs) [ none ↦ false | some w ↦ value_eq v w ] && fields_in fs gs
