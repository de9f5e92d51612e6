-- ===== src/Workload/Podman/Lines.antt =====
-- `Logs` of internal/workload/podman/podman.go: the lines of the containers of a pod are copied to a
-- writer. `bufio.Reader.ReadLine` is written out, over the bytes that a container has written so
-- far. Following a container is a parameter.
pub mod Joined
use k4e_device_worker.Prelude.{
  ℕ, zero, suc, Bool, true, false, Option, none, some, List, [], ◌∷◌, ◌++◌, String, if◌then◌else◌,
  ◌==◌, number_key, Result, ok, err, Err, Exec,
}
use k4e_device_worker.Workload.Podman.{PodInspection, Bindings}

-- How `ReadSlice` ended: at a line feed, with a buffer full, or at the end of what there is
pub data Ending : Type 0 where
  line_end : Ending
  full : Ending
  end_of_input : Ending

pub record Slice : Type 0 where
  pub bytes : List ℕ  -- without the line feed
  pub ending : Ending
  pub rest : List ℕ

abbrev pub add_byte : ℕ → Slice → Slice
add_byte b s = record { bytes = b ∷ s.bytes; ending = s.ending; rest = s.rest }

-- `ReadSlice('\n')` with room for as many bytes in the buffer
unfoldable pub read_slice : ℕ → List ℕ → Slice
read_slice zero t = record { bytes = []; ending = full; rest = t }
read_slice (suc room) [] = record { bytes = []; ending = end_of_input; rest = [] }
read_slice (suc room) (b ∷ t) =
    let later = read_slice room t in
    if b == 10 then record { bytes = []; ending = line_end; rest = t } else add_byte b later

abbrev pub ends_in_cr : List ℕ → Bool
ends_in_cr [] = false
ends_in_cr (b ∷ []) = b == 13
ends_in_cr (b ∷ (c ∷ t)) = ends_in_cr (c ∷ t)

abbrev pub without_last : List ℕ → List ℕ
without_last [] = []
without_last (b ∷ []) = []
without_last (b ∷ (c ∷ t)) = b ∷ without_last (c ∷ t)

-- What `ReadLine` returns, and what is left
pub record Line : Type 0 where
  pub line : List ℕ
  pub is_prefix : Bool
  pub left : List ℕ

unfoldable pub of_slice : Ending → List ℕ → List ℕ → Line
of_slice line_end l rest = record {
  line = (if ends_in_cr l then without_last l else l);
  is_prefix = false;
  left = rest;
}
of_slice full l rest =
    if ends_in_cr l
    then record { line = without_last l; is_prefix = true; left = 13 ∷ rest }
    else record { line = l; is_prefix = true; left = rest }
of_slice end_of_input l rest = record { line = l; is_prefix = false; left = rest }

unfoldable pub read_line : ℕ → List ℕ → Line
unfolding read_slice of_slice
read_line size t = let s = read_slice size t in of_slice s.ending s.bytes s.rest

unfoldable pub next_line :
    (List ℕ → List ℕ → Option (List ℕ × List ℕ))
    → List ℕ
    → List ℕ
    → Bool
    → List ℕ
    → Option (List ℕ × List ℕ)
next_line more result [] is_prefix left = some (result, left)
next_line more result (b ∷ line) is_prefix left =
    more (if is_prefix then result else result ++ b ∷ line) left

-- The inner loop: lines are read until an empty one; `none` is out of fuel.
unfoldable pub read_lines : ℕ → ℕ → List ℕ → List ℕ → Option (List ℕ × List ℕ)
unfolding read_line next_line
read_lines zero size result t = none
read_lines (suc fuel) size result t =
    let l = read_line size t in next_line (read_lines fuel size) result l.line l.is_prefix l.left

-- `fmt.Sprintf("%s: %s\n", containerID, resultLine)`, where there is a line to write
abbrev pub to_write : List ℕ → Option (List ℕ × List ℕ) → Option (Option (List ℕ) × List ℕ)
to_write id none = none
to_write id (some ([], left)) = some (none, left)
to_write id (some (b ∷ l, left)) = some (some (id ++ 58 ∷ 32 ∷ (b ∷ l) ++ 10 ∷ []), left)

-- One turn of the outer loop for a container
unfoldable pub copy_container : ℕ → ℕ → List ℕ → List ℕ → Option (Option (List ℕ) × List ℕ)
unfolding read_lines
copy_container fuel size id t = to_write id (read_lines fuel size [] t)

module _ {W : Type 0} (bindings : Bindings W) (follow : String → W → W) where
  -- `containerLog` starts its goroutines, and has no error to return.
  unfoldable pub container_log : String → W → Option Err × W
  container_log id w = (none, follow id w)

  add_reader : String → Result (List String) × W → Result (List String) × W
  add_reader id (err e, w) = (err e, w)
  add_reader id (ok ids, w) = (ok (id ∷ ids), w)

  log_started : String → (W → Result (List String) × W) → Option Err × W → Result (List String) × W
  unfolding add_reader
  log_started id more (some e, w) = (err e, w)
  log_started id more (none, w) = add_reader id (more w)

  unfoldable pub start_readers : List String → Exec W (List String)
  unfolding container_log log_started
  start_readers [] w = (ok [], w)
  start_readers (id ∷ rest) w = log_started id (start_readers rest) (container_log id w)

  inspected : Result PodInspection × W → Result (List String) × W
  unfolding start_readers
  inspected (err e, w) = (err e, w)
  inspected (ok pod, w) = start_readers pod.containers w

  -- `Logs`, up to its goroutine: the containers that have a reader
  unfoldable pub logs : String → Exec W (List String)
  unfolding inspected
  logs id w = inspected (bindings.inspect_pod id w)
