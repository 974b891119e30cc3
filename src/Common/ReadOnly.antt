-- ===== src/Common/ReadOnly.antt =====
-- Steps that only read: what follows them runs on the same store.
use mathlib.Core.Path.{◌≡◌, refl, sym, ap, ◌∙◌}
use mathlib.Core.Bool.{Bool, true, false}
use mathlib.Core.Option.{Option, none, some}
use native.Mathlib.Omega.{arith}
use rallya.Common.Tests.{if◌then◌else◌}
use rallya.Common.Action.{
  Result, ok, Tx, bind, ◌>>=◌, raise_if, or_raise, pure, map_err, bind-eq-ok, map_err-eq-ok,
}

-- `m` leaves the store as it is.
abbrev pub Reads : {S E A : Type 0} → Tx S E A → Type 0
Reads {S = S} {A = A} m = (s : S) (r : A × S) → m s ≡ ok r → r.1 ≡ s

module _ {S E A : Type 0} where
  pub Reads-map_err : {F : Type 0} (f : E → F) (m : Tx S E A) → Reads m → Reads (map_err f m)
  Reads-map_err f m reads s r h = reads s r (map_err-eq-ok f m s h)

  pub Reads-if : (b : Bool) (m n : Tx S E A) → Reads m → Reads n → Reads (if b then m else n)
  Reads-if true m n hm hn = hm
  Reads-if false m n hm hn = hn

  pub Reads-pure : (a : A) → Reads (pure {S = S} {E = E} a)
  Reads-pure a s r h = ground arith

  pub Reads-or_raise : (o : Option A) (e : E) → Reads (or_raise {S = S} o e)
  Reads-or_raise none e s r h = absurd (ground arith)
  Reads-or_raise (some a) e s r h = ground arith

  pub Reads-bind :
      {B : Type 0} (m : Tx S E B) (f : B → Tx S E A)
      → Reads m
      → ((b : B) → Reads (f b))
      → Reads (m >>= f)
  Reads-bind m f hm hf s r h =
      let (b, first, rest) = bind-eq-ok (m s) (λ b. f b.0 b.1) h in hf b.0 b.1 r rest ∙ hm s b first

module _ {S E A B : Type 0} where
  -- A read, then the rest.
  pub read-eq-ok :
      (m : Tx S E A) (f : A → S → Result E B) (s : S) {r : B}
      → Reads m
      → bind (m s) (λ b. f b.0 b.1) ≡ ok r
      → (a : A) × (m s ≡ ok (a, s)) × (f a s ≡ ok r)
  read-eq-ok m f s reads h =
      let (b, first, rest) = bind-eq-ok (m s) (λ b. f b.0 b.1) h in
      let same : b ≡ (b.0, s) = ap (λ t. (b.0, t)) (reads s b first) in
      (b.0, first ∙ ap ok same, ap (λ c. f c.0 c.1) (sym same) ∙ rest)

  -- A lookup that must find something, then the rest.
  pub found-eq-ok :
      (o : Option A) (e : E) (f : A → S → Result E B) (s : S) {r : B}
      → bind (or_raise o e s) (λ b. f b.0 b.1) ≡ ok r
      → (a : A) × (o ≡ some a) × (f a s ≡ ok r)
  found-eq-ok none e f s h = absurd (ground arith)
  found-eq-ok (some a) e f s h = (a, refl, h)

-- A guard, then the rest.
pub guard-eq-ok :
    {S E B : Type 0} (c : Bool) (e : E) (f : S → Result E B) (s : S) {r : B}
    → bind (raise_if c e s) (λ b. f b.1) ≡ ok r
    → (c ≡ false) × (f s ≡ ok r)
guard-eq-ok true e f s h = absurd (ground arith)
guard-eq-ok false e f s h = (refl, h)

-- A write that is the last but for a value computed from nothing else.
pub written-eq-ok :
    {S E A B : Type 0} (m : Tx S E A) (b : B) (s : S) {r : B × S}
    → bind (m s) (λ a. pure {S = S} {E = E} b a.1) ≡ ok r
    → (a : A) × (m s ≡ ok (a, r.1)) × (r.0 ≡ b)
written-eq-ok m b s {r = r} h =
    let (a, first, rest) = bind-eq-ok (m s) (λ a. pure b a.1) h in
    let same : a.1 ≡ r.1 = ground arith in (a.0, first ∙ ap (λ t. ok (a.0, t)) same, ground arith)
