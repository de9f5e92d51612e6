-- ===== src/Ansible/Mapping.antt =====
-- The playbooks that are pending (internal/ansible/mapping/mapping.go). The hash, the files and the
-- encoding are parameters.
pub mod Sorted
pub mod Pending
mod Examples
use k4e_device_worker.Prelude.{
  ℕ, suc, Bool, true, false, Option, none, some, List, [], ◌∷◌, String, Map, keys, get, put, remove,
  has, if◌then◌else◌, text_key, number_key, integer_key, ℤ, pos, ltb_ℤ, length, Result, ok, err,
  Err, ◌⧺◌,
}

-- `mapping`, as the file has it
pub record Entry : Type 0 where
  pub mod_time : ℤ
  pub file_path : String

-- `mappingRepository`; a time is its number of nanoseconds.
pub record Playbooks : Type 0 where
  pub mod_time_to_path : Map ℤ String
  pub path_to_mod_time : Map String ℤ
  pub config_dir : String

-- `save` encodes the entries and writes them to the file of the mapping.
pub record Env (W : Type 0) : Type 0 where
  pub get_sha256 : String → String
  pub write_file : String → String → W → Option Err × W
  pub save : List Entry → W → Option Err × W
  pub remove_all : W → Option Err × W

abbrev load_entry : Entry → Playbooks → Playbooks
load_entry e m = record m {
  mod_time_to_path = put m.mod_time_to_path e.mod_time e.file_path;
  path_to_mod_time = put m.path_to_mod_time e.file_path e.mod_time;
}

-- the loop over the entries of the file
unfoldable pub load_playbooks : List Entry → Playbooks → Playbooks
load_playbooks [] m = m
load_playbooks (e ∷ rest) m = load_playbooks rest (load_entry e m)

-- `NewMappingRepository`: `none` is a file that cannot be read, which counts as none there.
unfoldable pub new_playbooks : String → Option (Result (List Entry)) → Result Playbooks
unfolding load_playbooks
new_playbooks config_dir none =
    ok (record { mod_time_to_path = []; path_to_mod_time = []; config_dir = config_dir })
new_playbooks config_dir (some (err e)) = err e
new_playbooks config_dir (some (ok es)) = ok (
    load_playbooks es
      (record { mod_time_to_path = []; path_to_mod_time = []; config_dir = config_dir }))

-- `sort.SliceStable(keys, ...)`, by insertion
unfoldable pub insert_key : ℤ → List ℤ → List ℤ
insert_key k [] = k ∷ []
insert_key k (j ∷ rest) =
    let later = insert_key k rest in if ltb_ℤ j k then j ∷ later else k ∷ j ∷ rest

unfoldable pub sort_keys : List ℤ → List ℤ
unfolding insert_key
sort_keys [] = []
sort_keys (k ∷ rest) = insert_key k (sort_keys rest)

-- A value of Go's map, "" where the key is missing
abbrev pub text_or_empty : Option String → String
text_or_empty none = ""
text_or_empty (some t) = t

-- A value of Go's map, 0 where the key is missing
abbrev pub time_or_zero : Option ℤ → ℤ
time_or_zero none = pos 0
time_or_zero (some t) = t

-- for i, v := range keys
unfoldable pub number_paths : Map ℤ String → ℕ → List ℤ → Map ℕ String → Map ℕ String
number_paths paths i [] all = all
number_paths paths i (t ∷ rest) all =
    number_paths paths (suc i) rest (put all i (text_or_empty (get paths t)))

unfoldable pub get_all : Playbooks → Map ℕ String
unfolding number_paths sort_keys
get_all m = number_paths m.mod_time_to_path 0 (sort_keys (keys m.mod_time_to_path)) []

unfoldable pub get_mod_time : Playbooks → String → ℤ
get_mod_time m path = time_or_zero (get m.path_to_mod_time path)

unfoldable pub get_file_path : Playbooks → ℤ → String
get_file_path m t = text_or_empty (get m.mod_time_to_path t)

unfoldable pub is_pending : Playbooks → ℤ → Bool
is_pending m t = has m.mod_time_to_path t

unfoldable pub size : Playbooks → ℕ
size m = length m.path_to_mod_time

unfoldable pub playbook_entries : Map ℤ String → List Entry
playbook_entries [] = []
playbook_entries ((t, path) ∷ rest) =
    record { mod_time = t; file_path = path } ∷ playbook_entries rest

module _ {W : Type 0} (env : Env W) where
  -- `path.Join` of a clean directory and a name
  abbrev pub file_of : Playbooks → String → String
  file_of m content = m.config_dir ⧺ ("/" ⧺ env.get_sha256 content)

  -- `Persist` and `persist`
  unfoldable pub persist_playbooks : Playbooks → W → Option Err × W
  unfolding playbook_entries
  persist_playbooks m w = env.save (playbook_entries m.mod_time_to_path) w

  keep_playbook : Playbooks → W → Option Err × Playbooks × W
  unfolding persist_playbooks
  keep_playbook m w = let (e, w') = persist_playbooks m w in (e, m, w')

  abbrev pub with_playbook : Playbooks → String → ℤ → Playbooks
  with_playbook m path t = record m {
    mod_time_to_path = put m.mod_time_to_path t path;
    path_to_mod_time = put m.path_to_mod_time path t;
  }

  unfoldable pub add_written : String → ℤ → Playbooks → Option Err × W → Option Err × Playbooks × W
  unfolding keep_playbook
  add_written path t m (some e, w) = (some e, m, w)
  add_written path t m (none, w) = keep_playbook (with_playbook m path t) w

  unfoldable pub add_playbook : String → ℤ → Playbooks → W → Option Err × Playbooks × W
  unfolding add_written
  add_playbook content t m w =
      let path = file_of m content in add_written path t m (env.write_file path content w)

  abbrev pub without_playbook : Playbooks → String → Playbooks
  without_playbook m path = record m {
    mod_time_to_path = remove m.mod_time_to_path (time_or_zero (get m.path_to_mod_time path));
    path_to_mod_time = remove m.path_to_mod_time path;
  }

  unfoldable pub remove_playbook : String → Playbooks → W → Option Err × Playbooks × W
  unfolding keep_playbook
  remove_playbook content m w = keep_playbook (without_playbook m (file_of m content)) w

  unfoldable pub remove_playbook_file : W → Option Err × W
  remove_playbook_file w = env.remove_all w
