-- ===== src/Os/Commands.antt =====
-- The commands of the operating system (internal/os/os_exec_commands.go). Running them and the file
-- system are parameters; a text is the list of its bytes.
pub mod Remote
pub mod Scripts
use k4e_device_worker.Prelude.{
  ℕ, Bool, true, false, ◌&&◌, ◌||◌, Option, none, some, List, [], ◌∷◌, ◌++◌, String, if◌then◌else◌,
  ◌==◌, number_key, split_lines, join_lines, Result, ok, err, Err, Exec, error_of,
}

-- `exists_file` tells whether `os.Stat` found the file, did not, or failed otherwise.
pub data Found : Type 0 where
  there : Found
  not_there : Found
  failed : Err → Found

pub record Env (W : Type 0) : Type 0 where
  pub output : List String → Exec W (List ℕ)  -- `exec.Command(...).Output()`
  pub stat : String → W → Found
  pub create : String → W → Option Err × W
  pub write : String → List ℕ → W → Option Err × W  -- of the file that was created
  pub chmod : String → W → Option Err × W
  pub read_file : String → W → Result (List ℕ)
  pub write_file : String → List ℕ → W → Option Err × W

-- b"url="
abbrev pub url_key : List ℕ
url_key = 117 ∷ 114 ∷ 108 ∷ 61 ∷ []

abbrev pub has_prefix : List ℕ → List ℕ → Bool
has_prefix [] t = true
has_prefix (a ∷ p) [] = false
has_prefix (a ∷ p) (b ∷ t) = (a == b) && has_prefix p t

-- strings.Contains
abbrev pub contains_bytes : List ℕ → List ℕ → Bool
contains_bytes p [] = has_prefix p []
contains_bytes p (b ∷ t) = has_prefix p (b ∷ t) || contains_bytes p t

abbrev pub replace_line : List ℕ → List ℕ → List ℕ
replace_line new_url line = if contains_bytes url_key line then url_key ++ new_url else line

unfoldable pub replace_lines : List ℕ → List (List ℕ) → List (List ℕ)
replace_lines new_url [] = []
replace_lines new_url (line ∷ rest) = replace_line new_url line ∷ replace_lines new_url rest

module _ {W : Type 0} (env : Env W) where
  unfoldable pub rpm_ostree_status : Exec W (List ℕ)
  rpm_ostree_status w = env.output ("rpm-ostree" ∷ "status" ∷ "--json" ∷ []) w

  available : Result (List ℕ) × W → Bool × W
  available (ok text, w) = (true, w)
  available (err e, w) = (false, w)

  unfoldable pub is_rpm_ostree_available : W → Bool × W
  unfolding rpm_ostree_status available
  is_rpm_ostree_available w = available (rpm_ostree_status w)

  unfoldable pub rpm_ostree_update_preview : Exec W (List ℕ)
  rpm_ostree_update_preview w = env.output ("rpm-ostree" ∷ "update" ∷ "--preview" ∷ []) w

  without_output : Result (List ℕ) × W → Option Err × W
  without_output (r, w) = (error_of r, w)

  unfoldable pub rpm_ostree_upgrade : W → Option Err × W
  unfolding without_output
  rpm_ostree_upgrade w = without_output (env.output ("rpm-ostree" ∷ "upgrade" ∷ []) w)

  unfoldable pub system_reboot : W → Option Err × W
  unfolding without_output
  system_reboot w = without_output (env.output ("systemctl" ∷ "reboot" ∷ []) w)

  unfoldable pub script_written : String → Option Err × W → Option Err × W
  script_written file_name (some e, w) = (some e, w)
  script_written file_name (none, w) = env.chmod file_name w

  unfoldable pub script_created : String → List ℕ → Option Err × W → Option Err × W
  unfolding script_written
  script_created file_name script (some e, w) = (some e, w)
  script_created file_name script (none, w) =
      script_written file_name (env.write file_name script w)

  unfoldable pub ensure_found : String → List ℕ → Found → W → Option Err × W
  unfolding script_created
  ensure_found file_name script there w = (none, w)
  ensure_found file_name script not_there w =
      script_created file_name script (env.create file_name w)
  ensure_found file_name script (failed e) w = (some e, w)

  unfoldable pub ensure_script_exists : String → List ℕ → W → Option Err × W
  unfolding ensure_found
  ensure_script_exists file_name script w = ensure_found file_name script (env.stat file_name w) w

  unfoldable pub remote_updated : List ℕ → String → Result (List ℕ) → W → Option Err × W
  unfolding replace_lines
  remote_updated new_url file_name (err e) w = (some e, w)
  remote_updated new_url file_name (ok input) w =
      env.write_file file_name (join_lines (replace_lines new_url (split_lines input))) w

  unfoldable pub update_url_in_edge_remote : List ℕ → String → W → Option Err × W
  unfolding remote_updated
  update_url_in_edge_remote new_url file_name w =
      remote_updated new_url file_name (env.read_file file_name w) w
