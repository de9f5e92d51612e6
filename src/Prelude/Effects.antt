-- ===== src/Prelude/Effects.antt =====
-- Code that changes a state and may return a Go `error`. What was changed before the error stays
-- changed, so the state comes back beside the error too. An error is its text, and a multierror
-- is the list of the texts that were appended.
use Prim.Native.String.{String, ◌++◌ as str_append}
use mathlib.Core.Bool.{Bool, true, false}
use mathlib.Core.Option.{Option, none, some}
use mathlib.Core.Path.{◌≡◌, refl}
use mathlib.Core.List.{List, [], ◌∷◌, ◌++◌}

abbrev pub Err : Type 0
Err = String

pub data Result {ℓ} (A : Type ℓ) : Type ℓ where
  ok : A → Result A
  err : Err → Result A

abbrev pub Exec {ℓ} : Type ℓ → Type ℓ → Type ℓ
Exec S A = S → Result A × S

infixr 66 ◌⧺◌
-- Go's `+` on strings, and the places of a format
abbrev pub ◌⧺◌ : String → String → String
s ⧺ t = str_append s t

module _ {ℓ} {A : Type ℓ} where
  -- The error of a call that the caller looks at and does not return.
  abbrev pub error_of : Result A → Option Err
  error_of (ok a) = none
  error_of (err c) = some c

  abbrev pub map_error : (Err → Err) → Result A → Result A
  map_error f (ok a) = ok a
  map_error f (err c) = err (f c)

module _ {ℓ} {S A : Type ℓ} where
  abbrev pub pure : A → Exec S A
  pure a s = (ok a, s)

  abbrev pub raise : Err → Exec S A
  raise c s = (err c, s)

  abbrev pub lift : Result A → Exec S A
  lift r s = (r, s)

  abbrev pub attempt : Exec S A → S → Option Err × S
  attempt m s = let (r, s') = m s in (error_of r, s')

  -- `if err != nil { return fmt.Errorf(... err) }`
  abbrev pub wrap_error : (Err → Err) → Exec S A → Exec S A
  wrap_error f m s = let (r, s') = m s in (map_error f r, s')

module _ {ℓ} {S A B : Type ℓ} where
  abbrev pub continue : Result A → S → (A → Exec S B) → Result B × S
  continue (ok a) s f = f a s
  continue (err c) s f = (err c, s)

  infixl 5 ◌>>=◌ ◌>>◌
  abbrev pub ◌>>=◌ : Exec S A → (A → Exec S B) → Exec S B
  ◌>>=◌ m f s = let (r, s') = m s in continue r s' f

  abbrev pub ◌>>◌ : Exec S A → Exec S B → Exec S B
  ◌>>◌ m n s = let (r, s') = m s in continue r s' (λ _. n)

-- multierror.Append(errors, err) where err may be nil
abbrev pub collect : List Err → Option Err → List Err
collect es none = es
collect es (some c) = es ++ c ∷ []

-- `if !b { return errors.New(...) }`, a call whose error is only logged, and a call without one
module _ {S : Type 0} where
  abbrev pub guard : Bool → Err → Exec S (Unit {0})
  guard true c s = (ok tt, s)
  guard false c s = (err c, s)

  abbrev pub ignore : {A : Type 0} → Exec S A → Exec S (Unit {0})
  ignore m s = let (r, s') = m s in (ok tt, s')

  abbrev pub change : (S → S) → Exec S (Unit {0})
  change f s = (ok tt, f s)

  -- an optional error, as `if err != nil { return err }` reads it
  abbrev pub check : (S → Option Err × S) → Exec S (Unit {0})
  check m s = let (o, s') = m s in elim o [ none ↦ (ok tt, s') | some c ↦ (err c, s') ]

-- Every success of `m` leaves a state with `P`.
abbrev pub Leaves : {S B : Type 0} → (S → Type 0) → Exec S B → Type 0
Leaves {S} {B} P m = (s : S) (b : B) → (m s).0 ≡ ok b → P (m s).1

module _ {S A B : Type 0} (P : S → Type 0) where
  sequence_last_from :
      (f : A → Exec S B)
      → ((a : A) → Leaves P (f a))
      → (x : Result A × S) (b : B) → (continue x.0 x.1 f).0 ≡ ok b
      → P (continue x.0 x.1 f).1
  sequence_last_from f last (ok a, s) b h = last a s b h
  sequence_last_from f last (err c, s) b h = cc

  -- What the last part of a sequence leaves, the sequence leaves.
  pub sequence_last :
      (m : Exec S A) (f : A → Exec S B) → ((a : A) → Leaves P (f a)) → Leaves P (m >>= f)
  sequence_last m f last s b h = sequence_last_from f last (m s) b h

module _ {S A B : Type 0} (P : S → Type 0) where
  sequence_first_from :
      (f : A → Exec S B)
      → ((a : A) (s : S) → P s → P (f a s).1)
      → (x : Result A × S) (b : B) → ((a : A) → x.0 ≡ ok a → P x.1)
      → (continue x.0 x.1 f).0 ≡ ok b
      → P (continue x.0 x.1 f).1
  sequence_first_from f kept (ok a, s) b first h = kept a s (first a refl)
  sequence_first_from f kept (err c, s) b first h = cc

  -- What the first part leaves stays, if every later part keeps it.
  pub sequence_first :
      (m : Exec S A) (f : A → Exec S B)
      → Leaves P m
      → ((a : A) (s : S) → P s → P (f a s).1)
      → Leaves P (m >>= f)
  sequence_first m f first kept s b h = sequence_first_from f kept (m s) b (first s) h

  kept_both_from :
      (f : A → Exec S B)
      → ((a : A) (s : S) → P s → P (f a s).1)
      → (x : Result A × S) → P x.1
      → P (continue x.0 x.1 f).1
  kept_both_from f kept (ok a, s) p = kept a s p
  kept_both_from f kept (err c, s) p = p

  pub kept_both :
      (m : Exec S A) (f : A → Exec S B)
      → ((s : S) → P s → P (m s).1)
      → ((a : A) (s : S) → P s → P (f a s).1)
      → (s : S) → P s
      → P ((m >>= f) s).1
  kept_both m f first later s p = kept_both_from f later (m s) (first s p)

module _ {S : Type 0} where
  check_state_of :
      (x : Option Err × S)
      → (elim x.0 as (λ _. Result (Unit {0}) × S) [ none ↦ (ok tt, x.1) | some c ↦ (err c, x.1) ]).1
        ≡ x.1
  check_state_of (none, s) = refl
  check_state_of (some c, s) = refl

  pub check_state : (m : S → Option Err × S) (s : S) → (check m s).1 ≡ (m s).1
  check_state m s = check_state_of (m s)

-- What holds of the state of a sequence, by how its first part ended.
module _ {S A B : Type 0} (P : S → Type 0) (f : A → Exec S B) where
  pub continue_cases :
      (x : Result A × S)
      → ((c : Err) → x.0 ≡ err c → P x.1)
      → ((a : A) → x.0 ≡ ok a → P (f a x.1).1)
      → P (continue x.0 x.1 f).1
  continue_cases (ok a, s) failed went_on = went_on a refl
  continue_cases (err c, s) failed went_on = failed c refl

-- What a sequence that went well came to after its first part
pub continue_ok :
    {S A B : Type 0} (f : A → Exec S B) (x : Result A × S) (b : B)
    → (continue x.0 x.1 f).0 ≡ ok b
    → (a : A) × (x.0 ≡ ok a) × ((f a x.1).0 ≡ ok b)
continue_ok f (ok a, s) b h = (a, refl, h)
continue_ok f (err c, s) b h = cc

pub map_error_ok :
    {A : Type 0} (f : Err → Err) (r : Result A) (a : A) → map_error f r ≡ ok a → r ≡ ok a
map_error_ok f (ok b) a h = h
map_error_ok f (err c) a h = cc

module _ {S : Type 0} where
  check_ok_of :
      (x : Option Err × S)
      → (elim x.0 as (λ _. Result (Unit {0}) × S) [ none ↦ (ok tt, x.1) | some c ↦ (err c, x.1) ]).0
        ≡ ok tt
      → x.0 ≡ none
  check_ok_of (none, s) h = refl
  check_ok_of (some c, s) h = cc

  pub check_ok : (m : S → Option Err × S) (s : S) → (check m s).0 ≡ ok tt → (m s).0 ≡ none
  check_ok m s = check_ok_of (m s)

-- No errors in a list are none in its parts.
pub nil_left : (xs ys : List Err) → xs ++ ys ≡ [] → xs ≡ []
nil_left [] ys h = refl
nil_left (x ∷ xs) ys h = cc

pub nil_right : (xs ys : List Err) → xs ++ ys ≡ [] → ys ≡ []
nil_right [] ys h = h
nil_right (x ∷ xs) ys h = cc
