-- ===== src/Configuration/Unordered.antt =====
-- The comparison of lists of secrets decides whether they hold the same.
use k4e_device_worker.Prelude.{
  ℕ, suc, ◌≡◌, refl, sym, ap, ◌∙◌, Bool, true, false, ◌&&◌, ◌||◌, Option, none, some, List, [], ◌∷◌,
  String, Map, get, length, nat_beq, nat_beq_iff, if◌then◌else◌, ◌==◌, text_key, Bool-cases, inl,
  inr, arith, eq_of_beq, beq_refl,
}
use mathlib.Core.Bool.{true≢false}
use k4e_device_worker.Workload.Secrets.{Secret}
use k4e_device_worker.Workload.Secrets.Synced.{
  not_configured, configured, is_configured, HasDistinctNames,
}
use k4e_device_worker.Configuration.{
  index_secrets, all_indexed, same_secret, is_equal_unordered_secret_lists,
}
use k4e_device_worker.Configuration.Secrets.{find_secret, index_secrets-get}

-- The list less the first secret of a name.
abbrev without : String → List Secret → List Secret
without n [] = []
without n (s ∷ rest) = let less = without n rest in if s.name == n then rest else s ∷ less

length-without :
    (n : String) (xs : List Secret)
    → is_configured xs n ≡ true
    → length xs ≡ suc (length (without n xs))
length-without n [] h = cc
length-without n (s ∷ rest) h = elim (Bool-cases (s.name == n)) [
  | inl same ↦ rw same
  | inr other ↦ rw other (ap suc (length-without n rest (sym (rw other) ∙ h)))
]

without_first :
    (s : Secret) (n : String) (rest : List Secret) (j : String)
    → is_configured rest s.name ≡ false
    → s.name ≡ n
    → is_configured rest j ≡ (if n == j then false else (s.name == j) || is_configured rest j)
without_first s n rest j fresh same = elim (Bool-cases (n == j)) [
  | inl here ↦ rw here (ap (is_configured rest) (sym (same ∙ eq_of_beq n j here)) ∙ fresh)
  | inr there ↦ rw (there, ap (λ k. k == j) same ∙ there)
]

is_configured-without :
    (n : String) (xs : List Secret) (j : String)
    → HasDistinctNames xs
    → is_configured (without n xs) j ≡ (if n == j then false else is_configured xs j)
is_configured-without n [] j distinct = ground arith
is_configured-without n (s ∷ rest) j (fresh, distinct) = elim (Bool-cases (s.name == n)) [
  | inl same ↦ rw same (without_first s n rest j fresh (eq_of_beq s.name n same))
  | inr other ↦
      rw (other, is_configured-without n rest j distinct)
        (elim (Bool-cases (n == j)) [
          | inl here ↦ rw (here, sym (ap (λ k. s.name == k) (eq_of_beq n j here)) ∙ other)
          | inr there ↦ rw there
        ])
]

without-HasDistinctNames :
    (n : String) (xs : List Secret) → HasDistinctNames xs → HasDistinctNames (without n xs)
without-HasDistinctNames n [] distinct = tt
without-HasDistinctNames n (s ∷ rest) (fresh, distinct) = elim (Bool-cases (s.name == n)) [
  | inl same ↦ rw same distinct
  | inr other ↦ rw other (
    is_configured-without n rest s.name distinct ∙ ground (arith, fresh),
    without-HasDistinctNames n rest distinct,
  )
]

or_false_left : (a b : Bool) → (a || b) ≡ false → a ≡ false
or_false_left a b h = ground arith

or_false_right : (a b : Bool) → (a || b) ≡ false → b ≡ false
or_false_right a b h = ground arith

length_of_suc : {m n : ℕ} → suc m ≡ suc n → m ≡ n
length_of_suc h = omega arith

still :
    (s : Secret) (rest xs : List Secret)
    → is_configured rest s.name ≡ false
    → (k : String) → (((s.name == k) || is_configured rest k) ≡ true → is_configured xs k ≡ true)
    → is_configured rest k ≡ true
    → (if s.name == k then false else is_configured xs k) ≡ true
still s rest xs fresh k sub at = elim (Bool-cases (s.name == k)) [
  | inl same ↦
      absurd
        (true≢false (sym at ∙ (sym (ap (is_configured rest) (eq_of_beq s.name k same)) ∙ fresh)))
  | inr other ↦ rw other (sub (rw (other, at)))
]

-- A list without repetitions that is as long as another and holds its names has no other names.
no_more_names :
    (ys xs : List Secret)
    → HasDistinctNames xs
    → HasDistinctNames ys
    → length xs ≡ length ys
    → ((j : String) → is_configured ys j ≡ true → is_configured xs j ≡ true)
    → (j : String) → is_configured ys j ≡ false
    → is_configured xs j ≡ false
no_more_names [] [] dx dy same sub j h = refl
no_more_names [] (x ∷ xs) dx dy same sub j h = cc
no_more_names (s ∷ rest) xs dx (fresh, dy) same sub j h =
    let here = sub s.name (rw (beq_refl s.name)) in
    sym (
      is_configured-without s.name xs j dx
      ∙ rw (or_false_left (s.name == j) (is_configured rest j) h))
    ∙ no_more_names rest (without s.name xs) (without-HasDistinctNames s.name xs dx) dy
        (length_of_suc (sym (length-without s.name xs here) ∙ same))
        (λ k at. is_configured-without s.name xs k dx ∙ still s rest xs fresh k (sub k) at) j
        (or_false_right (s.name == j) (is_configured rest j) h)

abbrev data_of : Option Secret → Option String
data_of none = none
data_of (some s) = some s.data_text

find_secret-data : (xs : List Secret) (j : String) → data_of (find_secret xs j) ≡ configured xs j
find_secret-data [] j = refl
find_secret-data (s ∷ rest) j = elim (Bool-cases (s.name == j)) [
  | inl same ↦ rw same
  | inr other ↦ rw other (find_secret-data rest j)
]

index_secrets-data :
    (xs : List Secret) (j : String)
    → HasDistinctNames xs
    → data_of (get (index_secrets xs []) j) ≡ configured xs j
unfolding get
index_secrets-data xs j distinct = elim (Bool-cases (is_configured xs j)) [
  | inl there ↦ rw (index_secrets-get xs [] j distinct, there) (find_secret-data xs j)
  | inr missing ↦ rw (index_secrets-get xs [] j distinct, missing, not_configured xs j missing)
]

and_right : (a b : Bool) → (a && b) ≡ true → b ≡ true
and_right a b h = ground arith

if_left : (a b : Bool) → (if a then b else false) ≡ true → a ≡ true
if_left a b h = ground arith

if_right : (a b : Bool) → (if a then b else false) ≡ true → b ≡ true
if_right a b h = ground arith

abbrev has_some : Option String → Bool
has_some none = false
has_some (some s) = true

same_secret-data :
    (o : Option Secret) (s : Secret) → same_secret o s ≡ true → data_of o ≡ some s.data_text
unfolding same_secret
same_secret-data none s h = cc
same_secret-data (some t) s h = ap some (
    sym (
      eq_of_beq s.data_text t.data_text
        (and_right (s.name == t.name) (s.data_text == t.data_text) h)))

-- What an accepted list has under a name, the map has too.
all_indexed-data :
    (m : Map String Secret) (ys : List Secret) (j : String)
    → all_indexed m ys ≡ true
    → is_configured ys j ≡ true
    → data_of (get m j) ≡ configured ys j
unfolding all_indexed
all_indexed-data m [] j h at = cc
all_indexed-data m (s ∷ rest) j h at = elim (Bool-cases (s.name == j)) [
  | inl same ↦ rw same (
      ap (λ k. data_of (get m k)) (sym (eq_of_beq s.name j same))
      ∙ same_secret-data (get m s.name) s
          (if_left (same_secret (get m s.name) s) (all_indexed m rest) h))
  | inr other ↦ rw other (
      all_indexed-data m rest j (if_right (same_secret (get m s.name) s) (all_indexed m rest) h)
        (sym (rw other) ∙ at))
]

configured_is : (xs : List Secret) (j : String) → is_configured xs j ≡ has_some (configured xs j)
configured_is [] j = refl
configured_is (s ∷ rest) j = elim (Bool-cases (s.name == j)) [
  | inl same ↦ rw same
  | inr other ↦ rw other (configured_is rest j)
]

-- Two lists that count as equal have the same data under every name, if no list has a name twice:
-- the comparison goes one way only, and the equal lengths give the other.
pub is_equal-configured :
    (xs ys : List Secret)
    → HasDistinctNames xs
    → HasDistinctNames ys
    → is_equal_unordered_secret_lists xs ys ≡ true
    → (j : String) → configured xs j ≡ configured ys j
unfolding is_equal_unordered_secret_lists
is_equal-configured xs ys dx dy h j =
    let same =
      (nat_beq_iff (length xs) (length ys)).0
        (if_left (nat_beq (length xs) (length ys)) (all_indexed (index_secrets xs []) ys) h) in
    let indexed =
      if_right (nat_beq (length xs) (length ys)) (all_indexed (index_secrets xs []) ys) h in
    let agree = λ (k : String) (at : is_configured ys k ≡ true).
      sym (index_secrets-data xs k dx) ∙ all_indexed-data (index_secrets xs []) ys k indexed at in
    elim (Bool-cases (is_configured ys j)) [
      | inl there ↦ agree j there
      | inr missing ↦
          not_configured xs j (
            no_more_names ys xs dx dy same
              (λ k at.
                configured_is xs k ∙ (ap has_some (agree k at) ∙ (sym (configured_is ys k) ∙ at)))
              j missing)
          ∙ sym (not_configured ys j missing)
    ]
