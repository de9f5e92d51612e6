-- ===== src/Ansible/Mapping/Sorted.antt =====
-- The pending playbooks in the order of their times.
use k4e_device_worker.Prelude.{
  ◌≡◌, refl, ap, ◌∙◌, ℕ, suc, zero, ◌+◌, ◌<◌, true, false, ◌||◌, Option, none, some, List, [], ◌∷◌,
  String, Map, keys, get, put, ◌==◌, number_key, integer_key, ℤ, ltb_ℤ, length, contains, arith,
  get-put, contains-keys, Bool-cases, inl, inr,
}
use k4e_device_worker.Ansible.Mapping.{
  insert_key, sort_keys, number_paths, get_all, text_or_empty, Playbooks, is_pending, get_file_path,
}

-- No member is before the one ahead of it.
abbrev pub IsAscending : List ℤ → Type 0
IsAscending [] = Unit {0}
IsAscending (a ∷ []) = Unit {0}
IsAscending (a ∷ (b ∷ rest)) = (ltb_ℤ b a ≡ false) × IsAscending (b ∷ rest)

abbrev pub get_elem? : {A : Type 0} → List A → ℕ → Option A
get_elem? [] i = none
get_elem? (x ∷ xs) zero = some x
get_elem? (x ∷ xs) (suc i) = get_elem? xs i

ltb_ℤ-asym : (a b : ℤ) → ltb_ℤ a b ≡ true → ltb_ℤ b a ≡ false
ltb_ℤ-asym a b h = ground arith

insert_key-IsAscending : (k : ℤ) (l : List ℤ) → IsAscending l → IsAscending (insert_key k l)
unfolding insert_key
insert_key-IsAscending k [] h = tt
insert_key-IsAscending k (a ∷ []) h = elim (Bool-cases (ltb_ℤ a k)) [
  | inl less ↦ rw less (ltb_ℤ-asym a k less, tt)
  | inr not_less ↦ rw not_less (not_less, tt)
]
insert_key-IsAscending k (a ∷ (b ∷ rest)) h =
    let ih = insert_key-IsAscending k (b ∷ rest) h.1 in
    elim (Bool-cases (ltb_ℤ a k)) [
      | inl less ↦ rw less (elim (Bool-cases (ltb_ℤ b k)) [
        | inl also ↦ let kept = rw also at ih in rw also (h.0, kept)
        | inr other ↦ rw other (ltb_ℤ-asym a k less, (other, h.1))
      ])
      | inr not_less ↦ rw not_less (not_less, h)
    ]

sort_keys-IsAscending : (l : List ℤ) → IsAscending (sort_keys l)
unfolding sort_keys
sort_keys-IsAscending [] = tt
sort_keys-IsAscending (k ∷ rest) =
    insert_key-IsAscending k (sort_keys rest) (sort_keys-IsAscending rest)

contains-insert_key :
    (j k : ℤ) (l : List ℤ) → contains j (insert_key k l) ≡ (k == j || contains j l)
unfolding insert_key
contains-insert_key j k [] = refl
contains-insert_key j k (a ∷ rest) = ground (arith, contains-insert_key j k rest)

contains-sort_keys : (j : ℤ) (l : List ℤ) → contains j (sort_keys l) ≡ contains j l
unfolding sort_keys
contains-sort_keys j [] = refl
contains-sort_keys j (k ∷ rest) =
    contains-insert_key j k (sort_keys rest) ∙ ap (λ b. k == j || b) (contains-sort_keys j rest)

length-insert_key : (k : ℤ) (l : List ℤ) → length (insert_key k l) ≡ suc (length l)
unfolding insert_key
length-insert_key k [] = refl
length-insert_key k (a ∷ rest) = ground (arith, length-insert_key k rest)

length-sort_keys : (l : List ℤ) → length (sort_keys l) ≡ length l
unfolding sort_keys
length-sort_keys [] = refl
length-sort_keys (k ∷ rest) = length-insert_key k (sort_keys rest) ∙ ap suc (length-sort_keys rest)

add-zero : (i : ℕ) → i + 0 ≡ i
add-zero i = omega arith

add-left : (n : ℕ) → n ≡ 0 + n
add-left n = omega arith

add-suc : (i n : ℕ) → i + suc n ≡ suc i + n
add-suc i n = omega arith

number_paths-before :
    (paths : Map ℤ String) (i : ℕ) (ts : List ℤ) (all : Map ℕ String) (j : ℕ)
    → j < i
    → get (number_paths paths i ts all) j ≡ get all j
unfolding number_paths
number_paths-before paths i [] all j h = refl
number_paths-before paths i (t ∷ rest) all j h =
    number_paths-before paths (suc i) rest (put all i (text_or_empty (get paths t))) j (omega arith)
    ∙ ground (arith, get-put all i j (text_or_empty (get paths t)), number_key.same_iff i j)

number_paths-at :
    (paths : Map ℤ String) (i : ℕ) (ts : List ℤ) (all : Map ℕ String) (n : ℕ) (t : ℤ)
    → get_elem? ts n ≡ some t
    → get (number_paths paths i ts all) (i + n) ≡ some (text_or_empty (get paths t))
unfolding number_paths
number_paths-at paths i [] all n t h = cc
number_paths-at paths i (u ∷ rest) all zero t h =
    let path : String = text_or_empty (get paths u) in
    ap (get (number_paths paths (suc i) rest (put all i path))) (add-zero i)
    ∙ (number_paths-before paths (suc i) rest (put all i path) i (omega arith)
        ∙ ground (arith, get-put all i i path, number_key.same_iff i i, h))
number_paths-at paths i (u ∷ rest) all (suc n) t h =
    let path : String = text_or_empty (get paths u) in
    ap (get (number_paths paths (suc i) rest (put all i path))) (add-suc i n)
    ∙ number_paths-at paths (suc i) rest (put all i path) n t h

-- The playbooks that `GetAll` numbers are those that are pending, as many as there are and by their
-- times: number n is the path of the n-th time of a list that ascends and has the times of the
-- mapping as its members.
pub get_all-IsAscending :
    (m : Playbooks)
    → IsAscending (sort_keys (keys m.mod_time_to_path))
      × ((t : ℤ) → contains t (sort_keys (keys m.mod_time_to_path)) ≡ is_pending m t)
      × (length (sort_keys (keys m.mod_time_to_path)) ≡ length (keys m.mod_time_to_path))
      × ((n : ℕ) (t : ℤ)
          → get_elem? (sort_keys (keys m.mod_time_to_path)) n ≡ some t
          → get (get_all m) n ≡ some (get_file_path m t))
unfolding get_all is_pending get_file_path
get_all-IsAscending m =
    let ts = keys m.mod_time_to_path in
    (
      sort_keys-IsAscending ts,
      (λ t. contains-sort_keys t ts ∙ contains-keys m.mod_time_to_path t),
      length-sort_keys ts,
      (λ n t h.
          ap (get (get_all m)) (add-left n)
          ∙ number_paths-at m.mod_time_to_path 0 (sort_keys ts) [] n t h),
    )
