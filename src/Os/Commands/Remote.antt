-- ===== src/Os/Commands/Remote.antt =====
-- The lines of the file of the remote after its address was updated.
use mathlib.Core.Path.{subst}
use k4e_device_worker.Prelude.{
  add_to_first, ◌≡◌, refl, sym, ap, ◌∙◌, ℕ, true, false, ◌++◌, ◌↔◌, arith, eq_of_beq, beq_refl,
  none, List, [], ◌∷◌, String, ◌==◌, number_key, split_lines, join_lines, AreLines,
  split_lines-join_lines, split_lines-AreLines, contains, ok, Bool-cases, inl, inr,
}
use k4e_device_worker.Os.Commands.{
  Env, url_key, has_prefix, contains_bytes, replace_line, replace_lines, remote_updated,
  update_url_in_edge_remote,
}

replace_line-contains :
    (u line : List ℕ)
    → contains 10 u ≡ false
    → contains 10 line ≡ false
    → contains 10 (replace_line u line) ≡ false
replace_line-contains u line h k = elim (Bool-cases (contains_bytes url_key line)) [
  | inl found ↦ rw found h
  | inr none_found ↦ rw none_found k
]

replace_lines-AreLines :
    (u : List ℕ) (ls : List (List ℕ))
    → contains 10 u ≡ false
    → AreLines ls
    → AreLines (replace_lines u ls)
unfolding replace_lines
replace_lines-AreLines u [] h k = tt
replace_lines-AreLines u (l ∷ rest) h (one, k) =
    (replace_line-contains u l h one, replace_lines-AreLines u rest h k)

-- A text has a line.
first_line : (t : List ℕ) → (l : List ℕ) × (rest : List (List ℕ)) × (split_lines t ≡ l ∷ rest)
first_line [] = ([], [], refl)
first_line (b ∷ t) =
    let (l, rest, shape) = first_line t in
    elim (Bool-cases (b == 10)) [
      | inl line_end ↦ ([], split_lines t, rw line_end refl)
      | inr inside ↦ (b ∷ l, rest, rw inside (ap (add_to_first b) shape))
    ]

joined :
    (u input : List ℕ)
    → contains 10 u ≡ false
    → split_lines (join_lines (replace_lines u (split_lines input)))
      ≡ replace_lines u (split_lines input)
unfolding replace_lines
joined u input one =
    let (l, rest, shape) = first_line input in
    let whole = subst (λ ls. AreLines ls) shape (split_lines-AreLines input) in
    subst (λ ls. split_lines (join_lines (replace_lines u ls)) ≡ replace_lines u ls) (sym shape)
      (split_lines-join_lines (replace_line u l) (replace_lines u rest)
        (replace_lines-AreLines u (l ∷ rest) one whole))

-- The address key is somewhere in the line.
abbrev pub HasKey : List ℕ → Type 0
HasKey line = (before : List ℕ) × (after : List ℕ) × (line ≡ before ++ url_key ++ after)

has_prefix-eq : (p t : List ℕ) → (has_prefix p t ≡ true) ↔ ((after : List ℕ) × (t ≡ p ++ after))
has_prefix-eq [] t = ((λ h. (t, refl)), (λ h. refl))
has_prefix-eq (a ∷ p) [] = ((λ h. cc), (λ (after, e). cc))
has_prefix-eq (a ∷ p) (b ∷ t) = (
  (λ h.
      let both : ((a == b) ≡ true) × (has_prefix p t ≡ true) = ground (arith, h) in
      let (after, e) = (has_prefix-eq p t).0 both.1 in
      let same = eq_of_beq a b both.0 in (after, cc)),
  (λ (after, e).
      let heads : b ≡ a = cc in
      let tails : t ≡ p ++ after = cc in
      rw (heads, beq_refl a, (has_prefix-eq p t).1 (after, tails))),
)

contains_bytes_sound : (t : List ℕ) → contains_bytes url_key t ≡ true → HasKey t
contains_bytes_sound [] h = cc
contains_bytes_sound (b ∷ t) h = elim (Bool-cases (has_prefix url_key (b ∷ t))) [
  | inl here ↦ (let (after, e) = (has_prefix-eq url_key (b ∷ t)).0 here in ([], after, e))
  | inr elsewhere ↦
      let (before, after, e) = contains_bytes_sound t (rw elsewhere at h) in
      (b ∷ before, after, ap (λ x. b ∷ x) e)
]

contains_bytes_complete :
    (before after : List ℕ) → contains_bytes url_key (before ++ url_key ++ after) ≡ true
contains_bytes_complete [] after = rw ((has_prefix-eq url_key (url_key ++ after)).1 (after, refl))
contains_bytes_complete (b ∷ before) after = ground (arith, contains_bytes_complete before after)

-- The lines of the new file, by those of the old one
pub data Readdressed (u : List ℕ) : List (List ℕ) → List (List ℕ) → Type 0 where
  no_line : Readdressed u [] []
  replaced :
      {line : List ℕ} {old new : List (List ℕ)}
      → HasKey line
      → Readdressed u old new
      → Readdressed u (line ∷ old) ((url_key ++ u) ∷ new)
  left :
      {line : List ℕ} {old new : List (List ℕ)}
      → ¬ HasKey line
      → Readdressed u old new
      → Readdressed u (line ∷ old) (line ∷ new)

replace_lines-Readdressed :
    (u : List ℕ) (lines : List (List ℕ)) → Readdressed u lines (replace_lines u lines)
unfolding replace_lines
replace_lines-Readdressed u [] = no_line
replace_lines-Readdressed u (line ∷ rest) = elim (Bool-cases (contains_bytes url_key line)) [
  | inl found ↦
      rw found (replaced (contains_bytes_sound line found) (replace_lines-Readdressed u rest))
  | inr missing ↦ rw missing (
      left
        (λ (before, after, e).
          let bad = contains_bytes_complete before after in
          let there = ap (contains_bytes url_key) e in cc)
        (replace_lines-Readdressed u rest))
]

-- What a file system documents of a write without an error.
abbrev pub Keeps : {W : Type 0} → Env W → String → Type 0
Keeps {W} env file =
    (t : List ℕ) (w : W)
    → (env.write_file file t w).0 ≡ none
    → env.read_file file (env.write_file file t w).1 ≡ ok t

-- An update to an address without a newline that reports no error leaves the file with as many lines
-- as before: those with "url=" in them are "url=" and the new address, and all others are as they
-- were. The file system reads what was written without an error.
pub update_url_in_edge_remote-split_lines :
    {W : Type 0} (env : Env W) (u : List ℕ) (file : String) (w : W) (input : List ℕ)
    → Keeps env file
    → contains 10 u ≡ false
    → env.read_file file w ≡ ok input
    → (update_url_in_edge_remote env u file w).0 ≡ none
    → (output : List ℕ) × (env.read_file file (update_url_in_edge_remote env u file w).1
        ≡ ok output)
      × Readdressed u (split_lines input) (split_lines output)
unfolding update_url_in_edge_remote remote_updated
update_url_in_edge_remote-split_lines env u file w input keeps one read h =
    let same = ap (λ r. remote_updated env u file r w) read in
    let output = join_lines (replace_lines u (split_lines input)) in
    (
      output,
      ap (λ x. env.read_file file x.1) same ∙ keeps output w (sym (ap (λ x. x.0) same) ∙ h),
      subst (λ ls. Readdressed u (split_lines input) ls) (sym (joined u input one))
          (replace_lines-Readdressed u (split_lines input)),
    )
