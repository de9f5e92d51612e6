-- ===== src/Metrics/Series.antt =====
-- `Series` and `DataPoint` of internal/metrics/metrics.go. A sample's value is a float64, of which
-- the code does nothing but copy it: its type is a parameter.
use k4e_device_worker.Prelude.{
  ℕ, ◌+◌, String, ◌≡◌, refl, List, [], ◌∷◌, ◌++◌, append_assoc, arith, Map, length, length-append,
}

pub record DataPoint (F : Type 0) : Type 0 where
  pub time : ℕ  -- milliseconds
  pub value : F

pub record Series (F : Type 0) : Type 0 where
  pub labels : Map String String
  pub data_points : List (DataPoint F)

-- A sample with the labels of the series that it belongs to.
abbrev pub Sample : Type 0 → Type 0
Sample F = Map String String × DataPoint F

module _ {F : Type 0} where
  unfoldable pub label_all : Map String String → List (DataPoint F) → List (Sample F)
  label_all l [] = []
  label_all l (p ∷ ps) = (l, p) ∷ label_all l ps

  -- All samples, in the order of the series.
  unfoldable pub samples : List (Series F) → List (Sample F)
  unfolding label_all
  samples [] = []
  samples (s ∷ rest) = label_all s.labels s.data_points ++ samples rest

  unfoldable pub sample_count : List (Series F) → ℕ
  sample_count [] = 0
  sample_count (s ∷ rest) = length s.data_points + sample_count rest

  pub label_all-append :
      (l : Map String String) (ps qs : List (DataPoint F))
      → label_all l (ps ++ qs) ≡ label_all l ps ++ label_all l qs
  unfolding label_all
  label_all-append l [] qs = refl
  label_all-append l (p ∷ ps) qs = simp (label_all-append l ps qs)

  pub samples-append : (xs ys : List (Series F)) → samples (xs ++ ys) ≡ samples xs ++ samples ys
  unfolding samples
  samples-append [] ys = refl
  samples-append (s ∷ xs) ys = simp (samples-append xs ys, append_assoc)

  pub length-label_all :
      (l : Map String String) (ps : List (DataPoint F)) → length (label_all l ps) ≡ length ps
  unfolding label_all
  length-label_all l [] = refl
  length-label_all l (p ∷ ps) = omega (arith, length-label_all l ps)

  pub length-samples : (xs : List (Series F)) → length (samples xs) ≡ sample_count xs
  unfolding samples sample_count
  length-samples [] = refl
  length-samples (s ∷ xs) = omega (
    arith,
    length-append (label_all s.labels s.data_points) (samples xs),
    length-label_all s.labels s.data_points,
    length-samples xs,
  )
