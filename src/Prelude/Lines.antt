-- ===== src/Prelude/Lines.antt =====
-- Texts as bytes, and their lines.
use Prim.Native.Nat.{ℕ}
use mathlib.Core.Path.{◌≡◌, refl, ap, ◌∙◌}
use mathlib.Core.Logic.{inl, inr}
use mathlib.Core.Bool.{false}
use mathlib.Core.List.{List, [], ◌∷◌, ◌++◌}
use native.Mathlib.Omega.{arith}
use k4e_device_worker.Prelude.Lists.{contains}
use k4e_device_worker.Prelude.Tests.{◌==◌, number_key, if◌then◌else◌, Bool-cases}

-- strings.Split(text, "\n")
abbrev pub add_to_first : ℕ → List (List ℕ) → List (List ℕ)
add_to_first b [] = (b ∷ []) ∷ []
add_to_first b (line ∷ rest) = (b ∷ line) ∷ rest

abbrev pub split_lines : List ℕ → List (List ℕ)
split_lines [] = [] ∷ []
split_lines (b ∷ rest) =
    let later = split_lines rest in if b == 10 then [] ∷ later else add_to_first b later

-- a line without an end, and what comes after its end
pub split_line :
    (l rest : List ℕ) → contains 10 l ≡ false → split_lines (l ++ 10 ∷ rest) ≡ l ∷ split_lines rest
split_line [] rest h = refl
split_line (b ∷ l) rest h = elim (Bool-cases (b == 10)) [
  | inl line_end ↦ (let bad = rw line_end at h in cc)
  | inr inside ↦
      let no_end = rw inside at h in rw inside (ap (add_to_first b) (split_line l rest no_end))
]

pub split_last : (l : List ℕ) → contains 10 l ≡ false → split_lines l ≡ l ∷ []
split_last [] h = refl
split_last (b ∷ l) h = elim (Bool-cases (b == 10)) [
  | inl line_end ↦ (let bad = rw line_end at h in cc)
  | inr inside ↦
      let no_end = rw inside at h in rw inside (ap (add_to_first b) (split_last l no_end))
]

-- strings.Join(lines, "\n")
abbrev pub join_lines : List (List ℕ) → List ℕ
join_lines [] = []
join_lines (l ∷ []) = l
join_lines (l ∷ (m ∷ rest)) = l ++ 10 ∷ join_lines (m ∷ rest)

-- No line has a line end inside.
abbrev pub AreLines : List (List ℕ) → Type 0
AreLines [] = Unit {0}
AreLines (l ∷ rest) = (contains 10 l ≡ false) × AreLines rest

pub split_lines-join_lines :
    (l : List ℕ) (rest : List (List ℕ))
    → AreLines (l ∷ rest)
    → split_lines (join_lines (l ∷ rest)) ≡ l ∷ rest
split_lines-join_lines l [] (one, h) = split_last l one
split_lines-join_lines l (m ∷ rest) (one, h) =
    split_line l (join_lines (m ∷ rest)) one ∙ ap (λ t. l ∷ t) (split_lines-join_lines m rest h)

add_to_first-AreLines :
    (b : ℕ) (ls : List (List ℕ)) → (b == 10) ≡ false → AreLines ls → AreLines (add_to_first b ls)
add_to_first-AreLines b [] h k = (ground (arith, h), tt)
add_to_first-AreLines b (l ∷ rest) h (one, k) = (ground (arith, h, one), k)

pub split_lines-AreLines : (t : List ℕ) → AreLines (split_lines t)
split_lines-AreLines [] = (refl, tt)
split_lines-AreLines (b ∷ rest) = elim (Bool-cases (b == 10)) [
  | inl line_end ↦ rw line_end (refl, split_lines-AreLines rest)
  | inr inside ↦
      rw inside (add_to_first-AreLines b (split_lines rest) inside (split_lines-AreLines rest))
]
