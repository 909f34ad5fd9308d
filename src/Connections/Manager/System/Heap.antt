-- ===== src/Connections/Manager/System/Heap.antt =====
-- How the parts of an operation (manager/mod.rs) change the records in the heap. `Heap R` is what the
-- operation may do: rewrite records within `R`, or put a fresh record at the end.
use nazh.Base.{
  ℕ, zero, suc, false, none, some, List, [], ◌∷◌, ◌++◌, ◌≡◌, refl, arith, if◌then◌else◌, ◌==◌,
  get_elem?, set,
}
use nazh.Connections.Types.{ConnectionRecord}

module _ {M : Type 0} where
  -- how many leases a record accounts for
  abbrev pub mark : ConnectionRecord M → ℕ
  mark r = if r.in_use then 1 else 0

  abbrev pub used : List (ConnectionRecord M) → ℕ → ℕ
  used [] a = 0
  used (r ∷ rs) zero = mark r
  used (r ∷ rs) (suc a) = used rs a

  pub used-set :
      (rs : List (ConnectionRecord M)) (i : ℕ) (r s : ConnectionRecord M) (a : ℕ)
      → get_elem? rs i ≡ some r
      → used (set rs i s) a ≡ (if i == a then mark s else used rs a)
  used-set [] i r s a h = absurd (ground arith)
  used-set (x ∷ xs) zero r s zero h = refl
  used-set (x ∷ xs) zero r s (suc a) h = ground arith
  used-set (x ∷ xs) (suc i) r s zero h = ground arith
  used-set (x ∷ xs) (suc i) r s (suc a) h = ground (arith, used-set xs i r s a h)

  pub used-get :
      (rs : List (ConnectionRecord M)) (i : ℕ) (r : ConnectionRecord M)
      → get_elem? rs i ≡ some r
      → used rs i ≡ mark r
  used-get [] i r h = absurd (ground arith)
  used-get (x ∷ xs) zero r h = ground arith
  used-get (x ∷ xs) (suc i) r h = used-get xs i r h

  pub used-append :
      (rs : List (ConnectionRecord M)) (r : ConnectionRecord M) (a : ℕ)
      → r.in_use ≡ false
      → used (rs ++ r ∷ []) a ≡ used rs a
  used-append [] r zero h = ground arith
  used-append [] r (suc a) h = refl
  used-append (x ∷ xs) r zero h = refl
  used-append (x ∷ xs) r (suc a) h = used-append xs r a h

  pub used-none : (rs : List (ConnectionRecord M)) (i : ℕ) → get_elem? rs i ≡ none → used rs i ≡ 0
  used-none [] i h = refl
  used-none (x ∷ xs) zero h = absurd (ground arith)
  used-none (x ∷ xs) (suc i) h = used-none xs i h
