-- ===== src/Metrics/Database/Times.antt =====
-- The times of the database and the labels of what is added to it.
use k4e_device_worker.Prelude.{
  ◌≡◌, ◌≢◌, refl, sym, ap, ◌∙◌, ℕ, ◌+◌, ◌*◌, ◌/◌, ◌%◌, false, Option, none, some, [], ◌∷◌, String,
  Map, get, put, has, ◌==◌, text_key, number_key, arith, get-put, Bool-cases, inl, inr, IsDistinct,
  beq_ne, eq_of_beq,
}
use k4e_device_worker.Metrics.Database.{
  Env, to_db_time, from_db_time, put_labels, merge_labels_from_vector,
}

exact : (d : ℕ) → ((d / 1000) * 1000000000 + (d % 1000) * 1000000) / 1000000 ≡ d
exact d = omega arith

-- A time of the database, but for the three that stand for no time, is read back as it was when it
-- is turned into a time of Go and into a time of the database again.
pub to_db_time-from_db_time :
    (d : ℕ)
    → d ≢ 0
    → d ≢ 9223372036854775807
    → (t : ℕ) × (from_db_time d ≡ some t) × (to_db_time t ≡ d)
unfolding from_db_time to_db_time
to_db_time-from_db_time d first last = (
  (d / 1000) * 1000000000 + (d % 1000) * 1000000,
  rw (beq_ne d 0 first, beq_ne d 9223372036854775807 last) refl,
  exact d,
)

abbrev pub first_of : Option String → Option String → Option String
first_of none o = o
first_of (some v) o = some v

nothing_else : (o : Option String) → first_of o none ≡ o
nothing_else none = refl
nothing_else (some v) = refl

none_of_has : (m : Map String String) (k : String) → has m k ≡ false → get m k ≡ none
unfolding has
none_of_has m k h = ground arith

put_labels-get :
    {W F : Type 0} (env : Env W F) (m res : Map String String) (k : String)
    → IsDistinct m
    → get (put_labels env m res) k ≡ first_of (get m k) (get res k)
unfolding put_labels get
put_labels-get env [] res k d = refl
put_labels-get env ((j, v) ∷ rest) res k (absent, d) =
    put_labels-get env rest (put res j v) k d ∙ elim (Bool-cases (j == k)) [
      | inl same ↦
          rw
            (
              same,
              get-put res j k v,
              same,
              none_of_has rest k (ap (has rest) (sym (eq_of_beq j k same)) ∙ absent),
            )
            refl
      | inr other ↦ rw (other, get-put res j k v, other) refl
    ]

-- A sample that is stored has its own labels, and the target's labels besides them: where both have
-- a label, the sample's is kept.
pub merge_labels_from_vector-get :
    {W F : Type 0} (env : Env W F) (metric labels : Map String String) (k : String)
    → IsDistinct metric
    → IsDistinct labels
    → get (merge_labels_from_vector env metric labels) k ≡ first_of (get metric k) (get labels k)
unfolding merge_labels_from_vector get
merge_labels_from_vector-get env metric labels k d e =
    put_labels-get env metric (put_labels env labels []) k d
    ∙ ap (first_of (get metric k)) (put_labels-get env labels [] k e ∙ nothing_else (get labels k))
