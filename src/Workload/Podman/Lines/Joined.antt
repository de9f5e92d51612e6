-- ===== src/Workload/Podman/Lines/Joined.antt =====
-- What is logged of the lines that a container has written between two turns.
use k4e_device_worker.Prelude.{
  ◌≡◌, refl, sym, ap, ◌∙◌, ℕ, zero, suc, ◌+◌, ◌≤◌, ◌<◌, Bool, true, false, Option, some, List, [],
  ◌∷◌, ◌++◌, append_assoc, append-nil, length, contains, if◌then◌else◌, ◌==◌, number_key, arith,
  Bool-cases, inl, inr,
}
use k4e_device_worker.Workload.Podman.Lines.{
  line_end, full, add_byte, read_slice, ends_in_cr, Line, of_slice, read_line, next_line,
  read_lines, to_write, copy_container,
}

-- A line as a container writes it: some bytes, none of them a line feed, the last no carriage return
abbrev pub IsLine : List ℕ → Type 0
IsLine l = (1 ≤ length l) × (contains 10 l ≡ false) × (ends_in_cr l ≡ false)

abbrev pub AreShort : ℕ → List (List ℕ) → Type 0
AreShort size [] = Unit {0}
AreShort size (l ∷ rest) = IsLine l × (length l < size) × AreShort size rest

abbrev pub AreFull : ℕ → List (List ℕ) → Type 0
AreFull size [] = Unit {0}
AreFull size (l ∷ rest) = IsLine l × (length l ≡ size) × AreFull size rest

abbrev pub terminated : List (List ℕ) → List ℕ
terminated [] = []
terminated (l ∷ rest) = l ++ 10 ∷ terminated rest

abbrev pub joined : List (List ℕ) → List ℕ
joined [] = []
joined (l ∷ rest) = l ++ joined rest

read_slice-line :
    (size : ℕ) (l t : List ℕ)
    → length l < size
    → contains 10 l ≡ false
    → read_slice size (l ++ 10 ∷ t) ≡ record { bytes = l; ending = line_end; rest = t }
unfolding read_slice
read_slice-line zero l t short one = absurd (omega (arith, short))
read_slice-line (suc n) [] t short one = refl
read_slice-line (suc n) (b ∷ l) t short one = elim (Bool-cases (b == 10)) [
  | inl feed ↦ (let bad = rw feed at one in cc)
  | inr other ↦
      let later = rw other at one in
      rw other (ap (add_byte b) (read_slice-line n l t (omega (arith, short)) later))
]

read_slice-full :
    (size : ℕ) (l t : List ℕ)
    → length l ≡ size
    → contains 10 l ≡ false
    → read_slice size (l ++ t) ≡ record { bytes = l; ending = full; rest = t }
unfolding read_slice
read_slice-full zero [] t h one = refl
read_slice-full zero (b ∷ l) t h one = absurd (omega (arith, h))
read_slice-full (suc n) [] t h one = absurd (omega (arith, h))
read_slice-full (suc n) (b ∷ l) t h one = elim (Bool-cases (b == 10)) [
  | inl feed ↦ (let bad = rw feed at one in cc)
  | inr other ↦
      let later = rw other at one in
      rw other (ap (add_byte b) (read_slice-full n l t (omega (arith, h)) later))
]

read_line-line :
    (size : ℕ) (l t : List ℕ)
    → IsLine l
    → length l < size
    → read_line size (l ++ 10 ∷ t) ≡ record { line = l; is_prefix = false; left = t }
unfolding read_line of_slice
read_line-line size l t (some_bytes, one, no_cr) short =
    ap (λ s. of_slice s.ending s.bytes s.rest) (read_slice-line size l t short one) ∙ rw no_cr refl

read_line-full :
    (size : ℕ) (l t : List ℕ)
    → IsLine l
    → length l ≡ size
    → read_line size (l ++ t) ≡ record { line = l; is_prefix = true; left = t }
unfolding read_line of_slice
read_line-full size l t (some_bytes, one, no_cr) h =
    ap (λ s. of_slice s.ending s.bytes s.rest) (read_slice-full size l t h one) ∙ rw no_cr refl

next_line_some :
    (more : List ℕ → List ℕ → Option (List ℕ × List ℕ)) (result l : List ℕ) (is_prefix : Bool)
    (left : List ℕ)
    → 1 ≤ length l
    → next_line more result l is_prefix left ≡ more (if is_prefix then result else result ++ l) left
unfolding next_line
next_line_some more result [] is_prefix left h = absurd (omega (arith, h))
next_line_some more result (b ∷ l) is_prefix left h = refl

step :
    (fuel size : ℕ) (result t : List ℕ) (l : Line)
    → read_line size t ≡ l
    → 1 ≤ length l.line
    → read_lines (suc fuel) size result t
      ≡ read_lines fuel size (if l.is_prefix then result else result ++ l.line) l.left
unfolding read_lines
step fuel size result t l read h =
    ap (λ x. next_line (read_lines fuel size) result x.line x.is_prefix x.left) read
    ∙ next_line_some (read_lines fuel size) result l.line l.is_prefix l.left h

-- Lines that fit into the buffer are all put together.
read_lines-terminated :
    (size : ℕ) (ls : List (List ℕ)) (fuel : ℕ) (result : List ℕ)
    → 1 ≤ size
    → length ls < fuel
    → AreShort size ls
    → read_lines fuel size result (terminated ls) ≡ some (result ++ joined ls, [])
unfolding read_lines read_line read_slice of_slice next_line
read_lines-terminated size ls zero result positive enough short = absurd (omega (arith, enough))
read_lines-terminated zero [] (suc fuel) result positive enough short =
    absurd (omega (arith, positive))
read_lines-terminated (suc n) [] (suc fuel) result positive enough short =
    ap (λ r. some (r, [])) (sym (append-nil result))
read_lines-terminated size (l ∷ rest) (suc fuel) result positive enough (is_line, fits, short) =
    step fuel size result (l ++ 10 ∷ terminated rest)
      (record { line = l; is_prefix = false; left = terminated rest })
      (read_line-line size l (terminated rest) is_line fits) is_line.0
    ∙ (read_lines-terminated size rest fuel (result ++ l) positive (omega (arith, enough)) short
        ∙ ap (λ r. some (r, [])) (append_assoc result l (joined rest)))

-- Parts that fill the buffer are dropped.
read_lines-full :
    (size : ℕ) (parts : List (List ℕ)) (fuel : ℕ) (result t : List ℕ)
    → AreFull size parts
    → read_lines (length parts + fuel) size result (joined parts ++ t)
      ≡ read_lines fuel size result t
read_lines-full size [] fuel result t h = ap (λ n. read_lines n size result t) (omega arith)
read_lines-full size (l ∷ rest) fuel result t (is_line, fills, h) =
    let fuels : length (l ∷ rest) + fuel ≡ suc (length rest + fuel) = omega arith in
    ap (λ n. read_lines n size result ((l ++ joined rest) ++ t)) fuels
    ∙ (step (length rest + fuel) size result ((l ++ joined rest) ++ t)
          (record { line = l; is_prefix = true; left = joined rest ++ t })
          (ap (read_line size) (append_assoc l (joined rest) t)
            ∙ read_line-full size l (joined rest ++ t) is_line fills)
          is_line.0
        ∙ read_lines-full size rest fuel result t h)

to_write_line :
    (id l : List ℕ)
    → 1 ≤ length l
    → to_write id (some (l, [])) ≡ some (some (id ++ 58 ∷ 32 ∷ l ++ 10 ∷ []), [])
to_write_line id [] h = absurd (omega (arith, h))
to_write_line id (b ∷ l) h = refl

some_bytes_joined :
    (size : ℕ) (l : List ℕ) (ls : List (List ℕ))
    → AreShort size (l ∷ ls)
    → 1 ≤ length (joined (l ∷ ls))
some_bytes_joined size [] ls (is_line, fits, h) = absurd (omega (arith, is_line.0))
some_bytes_joined size (b ∷ l) ls h = omega arith

-- Of what a container has written since the last turn, the parts of its first line that fill the
-- buffer are not logged, and all that follows, a line or more, is written as one line.
pub copy_container-joined :
    (size fuel : ℕ) (id : List ℕ) (parts : List (List ℕ)) (l : List ℕ) (ls : List (List ℕ))
    → 1 ≤ size
    → AreFull size parts
    → AreShort size (l ∷ ls)
    → length (l ∷ ls) < fuel
    → copy_container (length parts + fuel) size id (joined parts ++ terminated (l ∷ ls))
      ≡ some (some (id ++ 58 ∷ 32 ∷ joined (l ∷ ls) ++ 10 ∷ []), [])
unfolding copy_container
copy_container-joined size fuel id parts l ls positive fills short enough =
    ap (to_write id) (
      read_lines-full size parts fuel [] (terminated (l ∷ ls)) fills
      ∙ read_lines-terminated size (l ∷ ls) fuel [] positive enough short)
    ∙ to_write_line id (joined (l ∷ ls)) (some_bytes_joined size l ls short)
