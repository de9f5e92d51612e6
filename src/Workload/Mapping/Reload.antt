-- ===== src/Workload/Mapping/Reload.antt =====
-- A repository that is read back from its file answers as the one that was saved.
use k4e_device_worker.Prelude.{
  ◌≡◌, refl, Option, none, some, [], ◌∷◌, String, Map, get, put, has, if◌then◌else◌, text_key, ok,
  arith, get-put, Bool-cases, Option-cases, inl, inr, ◌⊎◌, IsDistinct, ap,
}
use text.Mathlib.TextEquality.{eq_iff}
use k4e_device_worker.Workload.Mapping.{
  Repository, or_empty, get_id, get_name, entries, load, empty, new_mapping_repository,
}
use k4e_device_worker.Workload.Mapping.Consistent.{IsConsistent}

get-load_ids :
    (es : Map String String) (m : Repository) (i : String)
    → IsDistinct es
    → get (load (entries es) m).id_to_name i ≡ (if has es i then get es i else get m.id_to_name i)
unfolding load entries has get
get-load_ids [] m i d = refl
get-load_ids ((k, v) ∷ rest) m i d = ground (
  arith,
  get-load_ids rest
      (record { id_to_name = put m.id_to_name k v; name_to_id = put m.name_to_id v k }) i d.1,
  get-put m.id_to_name k i v,
  eq_iff k i,
)

-- Every identifier of a name comes from an entry.
load_names_sound :
    (es : Map String String) (m : Repository) (n i : String)
    → IsDistinct es
    → get (load (entries es) m).name_to_id n ≡ some i
    → (get es i ≡ some n) ⊎ (get m.name_to_id n ≡ some i)
unfolding load entries has get
load_names_sound [] m n i d h = inr h
load_names_sound ((k, v) ∷ rest) m n i d h =
    elim (load_names_sound rest
      (record { id_to_name = put m.id_to_name k v; name_to_id = put m.name_to_id v k }) n i d.1 h) [
        | inl found ↦ inl (ground (arith, eq_iff k i))
        | inr held ↦ ground (arith, get-put m.name_to_id v n k, eq_iff k i, eq_iff v n)
      ]

-- If a name stands for one identifier only, it gets that one.
load_names_complete :
    (es : Map String String) (m : Repository) (n i : String)
    → IsDistinct es
    → ((j : String) → get es j ≡ some n → j ≡ i)
    → (get es i ≡ some n) ⊎ (get m.name_to_id n ≡ some i)
    → get (load (entries es) m).name_to_id n ≡ some i
unfolding load entries has get
load_names_complete [] m n i d u (inl h) = cc
load_names_complete [] m n i d u (inr h) = h
load_names_complete ((k, v) ∷ rest) m n i d u h =
    load_names_complete rest
      (record { id_to_name = put m.id_to_name k v; name_to_id = put m.name_to_id v k }) n i d.1
      (λ j e. u j (ground (arith, eq_iff k j)))
      (ground (arith, get-put m.name_to_id v n k, eq_iff k i, eq_iff v n, u k, eq_iff k k))

module _ (m : Repository) (d : IsDistinct m.id_to_name) (c : IsConsistent m) where
  abbrev loaded : Repository
  loaded = load (entries m.id_to_name) empty

  loaded_names : (id : String) → get loaded.id_to_name id ≡ get m.id_to_name id
  loaded_names id = elim (Bool-cases (has m.id_to_name id)) [
    | inl there ↦ rw (get-load_ids m.id_to_name empty id d, there)
    | inr missing ↦
        rw (get-load_ids m.id_to_name empty id d, missing) (unfold has get in ground arith)
  ]

  loaded_ids_of :
      (name : String) (o : Option String)
      → get m.name_to_id name ≡ o
      → get loaded.name_to_id name ≡ o
  unfolding get
  loaded_ids_of name none e = elim (Option-cases (get loaded.name_to_id name)) [
    | inl missing ↦ missing
    | inr (i, found) ↦ elim (load_names_sound m.id_to_name empty name i d found) [
      | inl back ↦ ground (arith, c.back name i back)
      | inr never ↦ cc
    ]
  ]
  loaded_ids_of name (some i) e =
      load_names_complete m.id_to_name empty name i d (λ j h. ground (arith, c.back name j h))
        (inl (c.forth name i e))

-- If the two maps of a repository are inverse to each other, reading back the file that `persist`
-- writes gives a repository with the same answers, in both directions, in whatever order the entries
-- were written.
pub reload :
    (m : Repository)
    → IsDistinct m.id_to_name
    → IsConsistent m
    → (m' : Repository) × (new_mapping_repository (some (ok (entries m.id_to_name))) ≡ ok m')
      × ((name : String) → get_id m' name ≡ get_id m name)
      × ((id : String) → get_name m' id ≡ get_name m id)
unfolding new_mapping_repository get_id get_name
reload m d c = (
  load (entries m.id_to_name) empty,
  refl,
  (λ name. ap or_empty (loaded_ids_of m d c name _ refl)),
  (λ id. ap or_empty (loaded_names m d c id)),
)
