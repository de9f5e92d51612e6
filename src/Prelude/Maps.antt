-- ===== src/Prelude/Maps.antt =====
-- Go's `map[K]V` as an association list. The order of the entries stands for the order in which
-- the runtime happens to iterate: a theorem about every list of entries holds for every order.
use mathlib.Core.Path.{◌≡◌, refl}
use mathlib.Core.Bool.{Bool, true, false}
use mathlib.Core.Logic.{inl, inr}
use mathlib.Core.Option.{Option, none, some}
use mathlib.Core.List.{List, [], ◌∷◌}
use native.Mathlib.Omega.{arith}
use k4e_device_worker.Prelude.Lists.{contains}
use k4e_device_worker.Prelude.Tests.{Key, ◌==◌, if◌then◌else◌, Bool-cases, beq_refl}

abbrev pub Map {ℓ κ} : Type ℓ → Type κ → Type (ℓ ⊔ κ)
Map K V = List (K × V)

module _ {ℓ κ} {K : Type ℓ} {V : Type κ} where
  -- for k := range m
  unfoldable pub keys : Map K V → List K
  keys [] = []
  keys ((k, v) ∷ m) = k ∷ keys m

module _ {ℓ κ} {K : Type ℓ} {V : Type κ} ⦃e : Key K⦄ where
  -- v, ok := m[k]
  unfoldable pub get : Map K V → K → Option V
  get [] k = none
  get ((j, v) ∷ m) k = if j == k then some v else get m k

  -- delete(m, k)
  unfoldable pub remove : Map K V → K → Map K V
  remove [] k = []
  remove ((j, v) ∷ m) k = let rest = remove m k in if j == k then rest else (j, v) ∷ rest

  -- m[k] = v
  unfoldable pub put : Map K V → K → V → Map K V
  unfolding remove
  put m k v = (k, v) ∷ remove m k

  unfoldable pub has : Map K V → K → Bool
  unfolding get
  has m k = elim (get m k) [ none ↦ false | some v ↦ true ]

  pub get-remove : (m : Map K V) (k j : K) → get (remove m k) j ≡ (if k == j then none else get m j)
  unfolding get remove
  get-remove [] k j = ground arith
  get-remove ((i, v) ∷ m) k j =
      ground (arith, get-remove m k j, e.same_iff i k, e.same_iff i j, e.same_iff k j)

  pub get-put :
      (m : Map K V) (k j : K) (v : V) → get (put m k v) j ≡ (if k == j then some v else get m j)
  unfolding get put
  get-put m k j v = ground (arith, get-remove m k j)

  pub has-remove :
      (m : Map K V) (k j : K) → has (remove m k) j ≡ (if k == j then false else has m j)
  unfolding has
  has-remove m k j = ground (arith, get-remove m k j)

  pub has-put :
      (m : Map K V) (k j : K) (v : V) → has (put m k v) j ≡ (if k == j then true else has m j)
  unfolding has
  has-put m k j v = ground (arith, get-put m k j v)

  pub get_of_has : (m : Map K V) (k : K) → has m k ≡ true → (v : V) × (get m k ≡ some v)
  unfolding has
  get_of_has m k h = ground arith

module _ {ℓ κ} {K : Type ℓ} {V : Type κ} ⦃e : Key K⦄ where
  pub has_of_get : (m : Map K V) (k : K) (v : V) → get m k ≡ some v → has m k ≡ true
  unfolding has
  has_of_get m k v h = ground arith

  -- No key stands twice, as in every map that the runtime makes.
  abbrev pub IsDistinct : Map K V → Type 0
  IsDistinct [] = Unit {0}
  IsDistinct ((k, v) ∷ m) = (has m k ≡ false) × IsDistinct m

  pub remove-IsDistinct : (m : Map K V) (k : K) → IsDistinct m → IsDistinct (remove m k)
  unfolding remove
  remove-IsDistinct [] k d = tt
  remove-IsDistinct ((j, v) ∷ m) k d = elim (Bool-cases (j == k)) [
    | inl hit ↦ rw hit (remove-IsDistinct m k d.1)
    | inr miss ↦ rw miss (ground (arith, has-remove m k j, d.0), remove-IsDistinct m k d.1)
  ]

  pub put-IsDistinct : (m : Map K V) (k : K) (v : V) → IsDistinct m → IsDistinct (put m k v)
  unfolding put
  put-IsDistinct m k v d = (rw (has-remove, beq_refl), remove-IsDistinct m k d)

module _ {ℓ κ} {K : Type ℓ} {V : Type κ} ⦃e : Key K⦄ where
  pub get-put_same : (m : Map K V) (k : K) (v : V) → get (put m k v) k ≡ some v
  get-put_same m k v = rw (get-put m k k v, beq_refl k) refl

  pub contains-keys : (m : Map K V) (j : K) → contains j (keys m) ≡ has m j
  unfolding keys has get
  contains-keys [] j = refl
  contains-keys ((k, v) ∷ m) j = ground (arith, contains-keys m j)

pub ruleset map_laws = (get-remove, get-put, has-remove, has-put)
