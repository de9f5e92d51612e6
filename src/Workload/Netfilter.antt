-- ===== src/Workload/Netfilter.antt =====
-- `netfilter` of internal/workload/network/netfilter.go: the arguments of the calls of `nft`.
-- Running the command is the parameter `run`.
use k4e_device_worker.Prelude.{
  Bool, true, false, Option, none, some, List, [], ◌∷◌, String, if◌then◌else◌, Err, Exec, Result,
  ok, err,
}
use text.Mathlib.Text.{find?}

-- What `run` comes back with: an exit status with the text of the error output, or another error.
pub data NftError : Type 0 where
  exited other : String → NftError

abbrev pub is_some {ℓ} : {A : Type ℓ} → Option A → Bool
is_some none = false
is_some (some a) = true

-- strings.Contains
abbrev pub contains_text : String → String → Bool
contains_text s t = is_some (find? s t)

abbrev pub text_of : NftError → Err
text_of (exited s) = s
text_of (other s) = s

module _ {W : Type 0} (run : List String → W → Option NftError × W) where
  unfoldable pub run_result : Option NftError × W → Result (Unit {0}) × W
  run_result (none, w) = (ok tt, w)
  run_result (some e, w) = (err (text_of e), w)

  unfoldable pub add_table : String → Exec W (Unit {0})
  unfolding run_result
  add_table table w = run_result (run ("add" ∷ "table" ∷ "inet" ∷ table ∷ []) w)

  unfoldable pub delete_table : String → Exec W (Unit {0})
  unfolding run_result
  delete_table table w = run_result (run ("delete" ∷ "table" ∷ "inet" ∷ table ∷ []) w)

  unfoldable pub add_chain : String → String → Exec W (Unit {0})
  unfolding run_result
  add_chain table chain w = run_result (
      run
        ("add" ∷ "chain" ∷ "inet" ∷ table ∷ chain ∷ "{ type filter hook input priority 0 ; }" ∷ [])
        w)

  unfoldable pub add_rule : String → String → String → Exec W (Unit {0})
  unfolding run_result
  add_rule table chain rule w =
      run_result (run ("add" ∷ "rule" ∷ "inet" ∷ table ∷ chain ∷ rule ∷ []) w)

  delete_listed : String → String → Option NftError × W → Result (Unit {0}) × W
  unfolding run_result
  delete_listed table chain (none, w) =
      run_result (run ("delete" ∷ "chain" ∷ "inet" ∷ table ∷ chain ∷ []) w)
  delete_listed table chain (some (exited msg), w) =
      if contains_text msg "No such file or directory" then (ok tt, w) else (err msg, w)
  delete_listed table chain (some (other msg), w) = (err msg, w)

  -- The chain is listed first: there is nothing to delete if that finds no chain.
  unfoldable pub delete_chain : String → String → Exec W (Unit {0})
  unfolding delete_listed
  delete_chain table chain w =
      delete_listed table chain (run ("list" ∷ "chain" ∷ "inet" ∷ table ∷ chain ∷ []) w)
