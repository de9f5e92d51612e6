-- ===== src/Workload/Mapping.antt =====
-- `mappingRepository` of internal/workload/mapping/mapping.go: the names of the workloads and the
-- identifiers of their pods, in two maps and a file. The JSON encoding is not modelled: the file
-- holds the list of the mappings. `save` writes it, and may fail.
pub mod Consistent
pub mod Reload
use k4e_device_worker.Prelude.{
  ℕ, ◌+◌, Bool, true, false, Option, none, some, List, [], ◌∷◌, String, Map, keys, get, remove, put,
  has, length, if◌then◌else◌, ◌==◌, text_key, Result, ok, err, Err,
}

pub record Repository : Type 0 where
  pub id_to_name : Map String String
  pub name_to_id : Map String String

-- `mapping`, an entry of the file
pub record Entry : Type 0 where
  pub id : String
  pub name : String

-- Reading a missing key gives the empty string.
unfoldable pub or_empty : Option String → String
or_empty none = ""
or_empty (some s) = s

unfoldable pub get_id : Repository → String → String
unfolding or_empty
get_id m name = or_empty (get m.name_to_id name)

unfoldable pub get_name : Repository → String → String
unfolding or_empty
get_name m id = or_empty (get m.id_to_name id)

unfoldable pub size : Repository → ℕ
size m = length m.name_to_id

-- the loop of `persist` over `idToName`
unfoldable pub entries : Map String String → List Entry
entries [] = []
entries ((id, name) ∷ rest) = record { id = id; name = name } ∷ entries rest

-- the loop of `NewMappingRepository` over the file
unfoldable pub load : List Entry → Repository → Repository
load [] m = m
load (e ∷ rest) m = load rest (record {
  id_to_name = put m.id_to_name e.id e.name;
  name_to_id = put m.name_to_id e.name e.id;
})

abbrev pub empty : Repository
empty = record { id_to_name = []; name_to_id = [] }

-- A file that cannot be read gives an empty repository, one that cannot be parsed an error.
unfoldable pub new_mapping_repository : Option (Result (List Entry)) → Result Repository
unfolding load
new_mapping_repository none = ok empty
new_mapping_repository (some (err e)) = err e
new_mapping_repository (some (ok es)) = ok (load es empty)

module _ {W : Type 0} (save : List Entry → W → Option Err × W) where
  unfoldable pub persist : Repository → W → Option Err × W
  unfolding entries
  persist m w = save (entries m.id_to_name) w

  -- The maps change whether or not the file can be written.
  unfoldable pub add : String → String → Repository → W → Option Err × Repository × W
  unfolding persist
  add name id m w =
      let m' : Repository = record {
        id_to_name = put m.id_to_name id name;
        name_to_id = put m.name_to_id name id;
      } in
      let (e, w') = persist m' w in (e, m', w')

  -- `remove` of the source
  unfoldable pub remove_name : String → Repository → W → Option Err × Repository × W
  unfolding persist or_empty
  remove_name name m w =
      let m' : Repository = record {
        id_to_name = remove m.id_to_name (or_empty (get m.name_to_id name));
        name_to_id = remove m.name_to_id name;
      } in
      let (e, w') = persist m' w in (e, m', w')

-- `RemoveMappingFile`, by `os.RemoveAll` and the path: the maps keep their entries.
unfoldable pub remove_mapping_file :
    {W : Type 0}
    → (String → W → Option Err × W)
    → String
    → Repository
    → W
    → Option Err × Repository × W
remove_mapping_file remove_all path m w = let (e, w') = remove_all path w in (e, m, w')
