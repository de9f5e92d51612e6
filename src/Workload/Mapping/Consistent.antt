-- ===== src/Workload/Mapping/Consistent.antt =====
-- The two maps are inverse to each other.
use k4e_device_worker.Prelude.{
  ◌≡◌, Option, none, some, List, String, get, remove, text_key, Err, arith, get-remove, get-put,
  Option-cases, inl, inr,
}
use text.Mathlib.TextEquality.{eq_iff}
use k4e_device_worker.Workload.Mapping.{Repository, Entry, add, remove_name, empty}

-- A name has an identifier exactly when the identifier has that name.
pub record IsConsistent (m : Repository) : Type 0 where
  pub forth : (name id : String) → get m.name_to_id name ≡ some id → get m.id_to_name id ≡ some name
  pub back : (name id : String) → get m.id_to_name id ≡ some name → get m.name_to_id name ≡ some id

pub empty-IsConsistent : IsConsistent empty
unfolding get
empty-IsConsistent = record { forth = λ name id h. cc; back = λ name id h. cc }

module _ {W : Type 0} (save : List Entry → W → Option Err × W) where
  -- Adding a mapping of a new name and a new identifier keeps the maps inverse.
  pub add-IsConsistent :
      (name id : String) (m : Repository) (w : W)
      → get m.name_to_id name ≡ none
      → get m.id_to_name id ≡ none
      → IsConsistent m
      → IsConsistent (add save name id m w).1
  unfolding add
  add-IsConsistent name id m w new_name new_id c = record {
    forth = λ n i h. ground (
      arith,
      get-put m.name_to_id name n id,
      get-put m.id_to_name id i name,
      c.forth n i,
      eq_iff name n,
      eq_iff id i,
    );
    back = λ n i h. ground (
      arith,
      get-put m.name_to_id name n id,
      get-put m.id_to_name id i name,
      c.back n i,
      eq_iff name n,
      eq_iff id i,
    );
  }

  -- The same maps without one name and one identifier that belong together.
  drop_pair :
      (name id : String) (m : Repository)
      → get m.name_to_id name ≡ some id
      → IsConsistent m
      → IsConsistent
          (record { id_to_name = remove m.id_to_name id; name_to_id = remove m.name_to_id name })
  drop_pair name id m e c = record {
    forth = λ n i h. ground (
      arith,
      get-remove m.name_to_id name n,
      get-remove m.id_to_name id i,
      c.forth n i,
      c.forth name id,
      eq_iff name n,
      eq_iff id i,
    );
    back = λ n i h. ground (
      arith,
      get-remove m.name_to_id name n,
      get-remove m.id_to_name id i,
      c.back n i,
      c.forth name id,
      eq_iff name n,
      eq_iff id i,
    );
  }

  drop_unknown :
      (name : String) (m : Repository)
      → get m.name_to_id name ≡ none
      → get m.id_to_name "" ≡ none
      → IsConsistent m
      → IsConsistent
          (record { id_to_name = remove m.id_to_name ""; name_to_id = remove m.name_to_id name })
  drop_unknown name m e f c = record {
    forth = λ n i h. ground (
      arith,
      get-remove m.name_to_id name n,
      get-remove m.id_to_name "" i,
      c.forth n i,
      eq_iff name n,
      eq_iff "" i,
    );
    back = λ n i h. ground (
      arith,
      get-remove m.name_to_id name n,
      get-remove m.id_to_name "" i,
      c.back n i,
      eq_iff name n,
      eq_iff "" i,
    );
  }

  -- Removing a name removes its identifier too, and keeps the maps inverse, where no pod has the
  -- empty identifier.
  pub remove_name-IsConsistent :
      (name : String) (m : Repository) (w : W)
      → get m.id_to_name "" ≡ none
      → IsConsistent m
      → IsConsistent (remove_name save name m w).1
  unfolding remove_name
  remove_name-IsConsistent name m w no_empty c = elim (Option-cases (get m.name_to_id name)) [
    | inl unknown ↦ rw unknown (drop_unknown name m unknown no_empty c)
    | inr (id, known) ↦ rw known (drop_pair name id m known c)
  ]
