-- ===== src/Configuration/Secrets.antt =====
-- When two lists of secrets count as equal.
use k4e_device_worker.Prelude.{
  ℕ, ◌≡◌, refl, sym, ap, ◌∙◌, true, Option, none, some, List, [], ◌∷◌, String, Map, get, put,
  length, nat_beq, nat_beq_iff, if◌then◌else◌, ◌==◌, text_key, get-put, Bool-cases, inl, inr,
  eq_of_beq, beq_refl,
}
use k4e_device_worker.Workload.Secrets.{Secret}
use k4e_device_worker.Workload.Secrets.Synced.{is_configured, HasDistinctNames}
use k4e_device_worker.Configuration.{
  index_secrets, all_indexed, same_secret, is_equal_unordered_secret_lists,
}

-- The secret of a name.
abbrev pub find_secret : List Secret → String → Option Secret
find_secret [] j = none
find_secret (s ∷ rest) j = if s.name == j then some s else find_secret rest j

pub index_secrets-get :
    (xs : List Secret) (m : Map String Secret) (j : String)
    → HasDistinctNames xs
    → get (index_secrets xs m) j ≡ (if is_configured xs j then find_secret xs j else get m j)
unfolding index_secrets
index_secrets-get [] m j distinct = refl
index_secrets-get (s ∷ rest) m j (fresh, distinct) =
    index_secrets-get rest (put m s.name s) j distinct ∙ elim (Bool-cases (s.name == j)) [
      | inl same ↦ rw (
        get-put m s.name j s,
        sym (ap (is_configured rest) (eq_of_beq s.name j same)) ∙ fresh,
        same,
      )
      | inr other ↦ rw (get-put m s.name j s, other)
    ]

-- Every secret of `ys` is the one that the map has under its name.
abbrev AllThere : Map String Secret → List Secret → Type 0
AllThere m [] = Unit
AllThere m (s ∷ rest) = (get m s.name ≡ some s) × AllThere m rest

all_indexed-there :
    (m : Map String Secret) (ys : List Secret) → AllThere m ys → all_indexed m ys ≡ true
unfolding all_indexed same_secret
all_indexed-there m [] there = refl
all_indexed-there m (s ∷ rest) (here, there) =
    rw (here, beq_refl s.name, beq_refl s.data_text) (all_indexed-there m rest there)

index_secrets-there :
    (xs : List Secret) (m : Map String Secret)
    → HasDistinctNames xs
    → AllThere (index_secrets xs m) xs
unfolding index_secrets
index_secrets-there [] m distinct = tt
index_secrets-there (s ∷ rest) m (fresh, distinct) = (
  rw (
    index_secrets-get rest (put m s.name s) s.name distinct,
    fresh,
    get-put m s.name s.name s,
    beq_refl s.name,
  ),
  index_secrets-there rest (put m s.name s) distinct,
)

nat_beq_refl : (n : ℕ) → nat_beq n n ≡ true
nat_beq_refl n = (nat_beq_iff n n).1 refl

-- A list whose secrets have distinct names equals itself.
pub is_equal_refl :
    (xs : List Secret) → HasDistinctNames xs → is_equal_unordered_secret_lists xs xs ≡ true
unfolding is_equal_unordered_secret_lists
is_equal_refl xs distinct =
    rw (nat_beq_refl (length xs))
      (all_indexed-there (index_secrets xs []) xs (index_secrets-there xs [] distinct))
