-- ===== src/Common/Counts.antt =====
-- How the number of rows that pass a test changes when a table is written.
use Prim.Native.Nat.{◌+◌, ◌≤◌}
use mathlib.Core.Path.{◌≡◌}
use mathlib.Core.Bool.{Bool, true, false}
use mathlib.Core.Option.{none, some}
use mathlib.Core.Logic.{inl, inr}
use mathlib.Core.List.{List, [], ◌∷◌, ◌++◌}
use native.Mathlib.Omega.{arith}
use rallya.Common.Tests.{Bool-cases, if◌then◌else◌}
use rallya.Common.Tables.{find, filter, count, update_first}
use rallya.Common.Keys.{All}

module _ {A : Type 0} where
  pub count-append : (p : A → Bool) (xs ys : List A) → count p (xs ++ ys) ≡ count p xs + count p ys
  count-append p [] ys = omega arith
  count-append p (x ∷ xs) ys = omega (arith, count-append p xs ys)

  pub count-filter-le : (p q : A → Bool) (xs : List A) → count p (filter q xs) ≤ count p xs
  count-filter-le p q [] = omega arith
  count-filter-le p q (x ∷ xs) = elim (Bool-cases (q x)) [
    | inl kept ↦ rw kept (omega (arith, count-filter-le p q xs))
    | inr dropped ↦ rw dropped (omega (arith, count-filter-le p q xs))
  ]

  -- A row that passes afterwards passed before.
  pub count-update_first-le :
      (p q : A → Bool) (f : A → A) (xs : List A)
      → ((x : A) → q x ≡ true → p (f x) ≡ true → p x ≡ true)
      → count p (update_first q f xs) ≤ count p xs
  count-update_first-le p q f [] fewer = omega arith
  count-update_first-le p q f (x ∷ xs) fewer = elim (Bool-cases (q x)) [
    | inl here ↦ let keeps : p (f x) ≡ true → p x ≡ true = fewer x here in rw here (ground arith)
    | inr further ↦ rw further (omega (arith, count-update_first-le p q f xs fewer))
  ]

  pub count-All-none : (p : A → Bool) (xs : List A) → All (λ x. p x ≡ false) xs → count p xs ≡ 0
  count-All-none p [] h = omega arith
  count-All-none p (x ∷ xs) h = rw (h.0) (omega (arith, count-All-none p xs h.1))

  pub All-of_count : (p : A → Bool) (xs : List A) → count p xs ≡ 0 → All (λ x. p x ≡ false) xs
  All-of_count p [] h = tt
  All-of_count p (x ∷ xs) h = elim (Bool-cases (p x)) [
    | inl passes ↦ absurd (ground arith)
    | inr fails ↦ (fails, All-of_count p xs (ground arith))
  ]

  -- Rewriting the row that is found, where the new row passes only if it did.
  pub count-update_found-le :
      (p q : A → Bool) (f : A → A) {a : A} (xs : List A)
      → find q xs ≡ some a
      → (p (f a) ≡ true → p a ≡ true)
      → count p (update_first q f xs) ≤ count p xs
  count-update_found-le p q f {a = a} [] found fewer = omega arith
  count-update_found-le p q f {a = a} (x ∷ xs) found fewer = elim (Bool-cases (q x)) [
    | inl here ↦
        let same : a ≡ x = ground arith in
        let narrower : p (f x) ≡ true → p x ≡ true = rw same at fewer in rw here (ground arith)
    | inr further ↦
        rw further (omega (arith, count-update_found-le p q f {a = a} xs (ground arith) fewer))
  ]

  -- No row passes a test that finds none.
  pub All-of_find-none : (p : A → Bool) (xs : List A) → find p xs ≡ none → All (λ x. p x ≡ false) xs
  All-of_find-none p [] h = tt
  All-of_find-none p (x ∷ xs) h = elim (Bool-cases (p x)) [
    | inl passes ↦ absurd (ground arith)
    | inr fails ↦ (fails, All-of_find-none p xs (ground arith))
  ]

  -- Rewriting the row that is found moves the count by what that row gains or loses.
  pub count-update_found :
      (p q : A → Bool) (f : A → A) {a : A} (xs : List A)
      → find q xs ≡ some a
      → count p (update_first q f xs) + (if p a then 1 else 0)
        ≡ count p xs + (if p (f a) then 1 else 0)
  count-update_found p q f {a = a} [] found = absurd (ground arith)
  count-update_found p q f {a = a} (x ∷ xs) found = elim (Bool-cases (q x)) [
    | inl here ↦ let same : a ≡ x = ground arith in rw (here, same) (omega arith)
    | inr further ↦ rw further (omega (arith, count-update_found p q f {a = a} xs (ground arith)))
  ]
