-- ===== src/Os/Commands/Scripts.antt =====
-- A script that was not written whole.
use k4e_device_worker.Prelude.{◌≡◌, refl, sym, ap, ◌∙◌, ℕ, Option, none, some, List, String, Err}
use k4e_device_worker.Os.Commands.{
  Env, there, not_there, script_written, script_created, ensure_found, ensure_script_exists,
}

module _ {W : Type 0} (env : Env W) where
  abbrev nothing_done : W → Option Err × W
  nothing_done w = (none, w)

  script_written_failed :
      (file : String) (x : Option Err × W) (e : Err) → x.0 ≡ some e → script_written env file x ≡ x
  unfolding script_written
  script_written_failed file (some d, w) e fails = refl
  script_written_failed file (none, w) e fails = cc

  script_created_failed :
      (file : String) (script : List ℕ) (x : Option Err × W) (e : Err)
      → x.0 ≡ none
      → (env.write file script x.1).0 ≡ some e
      → script_created env file script x ≡ env.write file script x.1
  unfolding script_created script_written
  script_created_failed file script (some d, w) e made fails = cc
  script_created_failed file script (none, w) e made fails =
      script_written_failed file (env.write file script w) e fails

  -- A script that could be created and not be written is an error once. From then on the file counts
  -- as the script: the next call reports no error and changes nothing, if the file that was created
  -- is found.
  pub ensure_script_exists_again :
      (file : String) (script : List ℕ) (w : W) (e : Err)
      → env.stat file w ≡ not_there
      → (env.create file w).0 ≡ none
      → (env.write file script (env.create file w).1).0 ≡ some e
      → env.stat file (env.write file script (env.create file w).1).1 ≡ there
      → ((ensure_script_exists env file script w).0 ≡ some e)
        × (ensure_script_exists env file script (ensure_script_exists env file script w).1
            ≡ (none, (ensure_script_exists env file script w).1))
  unfolding ensure_script_exists ensure_found
  ensure_script_exists_again file script w e absent made fails found =
      let x = env.write file script (env.create file w).1 in
      let first =
        ap (λ f. ensure_found env file script f w) absent
        ∙ script_created_failed file script (env.create file w) e made fails in
      (
        ap (λ y. y.0) first ∙ fails,
        ap (λ y. ensure_found env file script (env.stat file y.1) y.1) first
            ∙ (ap (λ f. ensure_found env file script f x.1) found
                ∙ ap (λ (y : Option Err × W). nothing_done y.1) (sym first)),
      )
