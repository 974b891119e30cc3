-- ===== src/Common/Keys.antt =====
-- Predicates on all rows of a table, and tables whose rows have distinct numeric keys.
use Prim.Native.Nat.{ℕ, zero, suc}
use mathlib.Core.Path.{◌≡◌}
use mathlib.Core.Bool.{Bool, true, false}
use mathlib.Core.Option.{none, some}
use mathlib.Core.Logic.{inl, inr}
use mathlib.Core.List.{List, [], ◌∷◌, ◌++◌}
use native.Mathlib.Omega.{arith}
use rallya.Common.Tests.{◌==◌, Bool-cases}
use rallya.Common.Tables.{find, filter, take, update_first}

abbrev pub All {ℓ} : {A : Type 0} → (A → Type ℓ) → List A → Type ℓ
All P [] = Unit
All P (x ∷ xs) = P x × All P xs

module _ {A : Type 0} where
  pub All-map : (P Q : A → Type 0) (xs : List A) → ((x : A) → P x → Q x) → All P xs → All Q xs
  All-map P Q [] f h = tt
  All-map P Q (x ∷ xs) f h = (f x h.0, All-map P Q xs f h.1)

  pub All-zip :
      (P Q R : A → Type 0) (xs : List A)
      → ((x : A) → P x → Q x → R x)
      → All P xs
      → All Q xs
      → All R xs
  All-zip P Q R [] f h k = tt
  All-zip P Q R (x ∷ xs) f h k = (f x h.0 k.0, All-zip P Q R xs f h.1 k.1)

  pub All-append : (P : A → Type 0) (xs ys : List A) → All P xs → All P ys → All P (xs ++ ys)
  All-append P [] ys h k = k
  All-append P (x ∷ xs) ys h k = (h.0, All-append P xs ys h.1 k)

  pub All-take : (P : A → Type 0) (n : ℕ) (xs : List A) → All P xs → All P (take n xs)
  All-take P zero xs h = tt
  All-take P (suc n) [] h = tt
  All-take P (suc n) (x ∷ xs) h = (h.0, All-take P n xs h.1)

  pub All-filter : (P : A → Type 0) (p : A → Bool) (xs : List A) → All P xs → All P (filter p xs)
  All-filter P p [] h = tt
  All-filter P p (x ∷ xs) h = elim (Bool-cases (p x)) [
    | inl kept ↦ rw kept (h.0, All-filter P p xs h.1)
    | inr dropped ↦ rw dropped (All-filter P p xs h.1)
  ]

  -- The kept rows pass the filter's test.
  pub filter-All : (p : A → Bool) (xs : List A) → All (λ x. p x ≡ true) (filter p xs)
  filter-All p [] = tt
  filter-All p (x ∷ xs) = elim (Bool-cases (p x)) [
    | inl kept ↦ rw kept (kept, filter-All p xs)
    | inr dropped ↦ rw dropped (filter-All p xs)
  ]

  pub All-update_first :
      (P : A → Type 0) (p : A → Bool) (f : A → A) (xs : List A)
      → ((x : A) → p x ≡ true → P x → P (f x))
      → All P xs
      → All P (update_first p f xs)
  All-update_first P p f [] keep h = tt
  All-update_first P p f (x ∷ xs) keep h = elim (Bool-cases (p x)) [
    | inl here ↦ rw here (keep x here h.0, h.1)
    | inr further ↦ rw further (h.0, All-update_first P p f xs keep h.1)
  ]

  pub All-find :
      (P : A → Type 0) (p : A → Bool) {a : A} (xs : List A) → All P xs → find p xs ≡ some a → P a
  All-find P p {a = a} [] h e = cc
  All-find P p {a = a} (x ∷ xs) h e = elim (Bool-cases (p x)) [
    | inl here ↦ let same : x ≡ a = ground arith in rw same at h.0
    | inr further ↦ All-find P p {a = a} xs h.1 (ground arith)
  ]

  -- Rewriting the row that is found.
  pub All-update_found :
      (P : A → Type 0) (p : A → Bool) (f : A → A) {a : A} (xs : List A)
      → find p xs ≡ some a
      → P (f a)
      → All P xs
      → All P (update_first p f xs)
  All-update_found P p f {a = a} [] found new h = tt
  All-update_found P p f {a = a} (x ∷ xs) found new h = elim (Bool-cases (p x)) [
    | inl here ↦ let same : a ≡ x = ground arith in rw here (rw same at new, h.1)
    | inr further ↦ rw further (h.0, All-update_found P p f {a = a} xs (ground arith) new h.1)
  ]

-- Tables with a numeric key.
module _ {A : Type 0} (key : A → ℕ) where
  abbrev pub NoneHas : ℕ → List A → Type 0
  NoneHas k = All (λ x. (key x == k) ≡ false)

  abbrev pub Distinct : List A → Type 0
  Distinct [] = Unit
  Distinct (x ∷ xs) = NoneHas (key x) xs × Distinct xs

  pub Distinct-take : (n : ℕ) (xs : List A) → Distinct xs → Distinct (take n xs)
  Distinct-take zero xs h = tt
  Distinct-take (suc n) [] h = tt
  Distinct-take (suc n) (x ∷ xs) h =
      (All-take (λ y. (key y == key x) ≡ false) n xs h.0, Distinct-take n xs h.1)

  pub Distinct-filter : (p : A → Bool) (xs : List A) → Distinct xs → Distinct (filter p xs)
  Distinct-filter p [] h = tt
  Distinct-filter p (x ∷ xs) h = elim (Bool-cases (p x)) [
    | inl kept ↦
        rw kept (All-filter (λ y. (key y == key x) ≡ false) p xs h.0, Distinct-filter p xs h.1)
    | inr dropped ↦ rw dropped (Distinct-filter p xs h.1)
  ]

  -- A new row whose key is not taken.
  pub Distinct-append :
      (x : A) (xs : List A) → NoneHas (key x) xs → Distinct xs → Distinct (xs ++ x ∷ [])
  Distinct-append x [] none_has h = (tt, tt)
  Distinct-append x (y ∷ xs) none_has h = (
    All-append (λ z. (key z == key y) ≡ false) xs (x ∷ []) h.0 (ground arith, tt),
    Distinct-append x xs none_has.1 h.1,
  )

  pub NoneHas-of_find : (k : ℕ) (xs : List A) → find (λ x. key x == k) xs ≡ none → NoneHas k xs
  NoneHas-of_find k [] h = tt
  NoneHas-of_find k (x ∷ xs) h = elim (Bool-cases (key x == k)) [
    | inl same ↦ absurd (ground arith)
    | inr other ↦ (other, NoneHas-of_find k xs (ground arith))
  ]

  -- Rewriting rows without changing their keys.
  pub Distinct-update_first :
      (p : A → Bool) (f : A → A) (xs : List A)
      → ((x : A) → p x ≡ true → key (f x) ≡ key x)
      → Distinct xs
      → Distinct (update_first p f xs)
  Distinct-update_first p f [] keep h = tt
  Distinct-update_first p f (x ∷ xs) keep h = elim (Bool-cases (p x)) [
    | inl here ↦ rw here (rw (keep x here) h.0, h.1)
    | inr further ↦ rw further (
      All-update_first (λ y. (key y == key x) ≡ false) p f xs (λ y e other. rw (keep y e) other)
          h.0,
      Distinct-update_first p f xs keep h.1,
    )
  ]

  -- Every row is the one that its key finds.
  pub Distinct-find :
      (xs : List A) → Distinct xs → All (λ x. find (λ y. key y == key x) xs ≡ some x) xs
  Distinct-find [] h = tt
  Distinct-find (x ∷ xs) h = (
    ground arith,
    All-zip (λ y. (key y == key x) ≡ false) (λ y. find (λ z. key z == key y) xs ≡ some y)
        (λ y. find (λ z. key z == key y) (x ∷ xs) ≡ some y) xs (λ y other found. ground arith) h.0
        (Distinct-find xs h.1),
  )
