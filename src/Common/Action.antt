-- ===== src/Common/Action.antt =====
-- Service methods as values. A method that fails inside `DB().Transaction` rolls its writes back,
-- so the error of a `Tx` carries no state; every method modelled by a `Tx` writes only there.
use mathlib.Core.Path.{◌≡◌, refl}
use mathlib.Core.Bool.{Bool, true, false}
use mathlib.Core.Option.{Option, none, some}

pub data Result (E A : Type 0) : Type 0 where
  ok : A → Result E A
  err : E → Result E A

-- A method on the store `S` with errors in `E`.
abbrev pub Tx : Type 0 → Type 0 → Type 0 → Type 0
Tx S E A = S → Result E (A × S)

abbrev pub bind : {E A B : Type 0} → Result E A → (A → Result E B) → Result E B
bind (ok a) f = f a
bind (err e) f = err e

infixl 5 ◌>>=◌ ◌>>◌
abbrev pub ◌>>=◌ : {S E A B : Type 0} → Tx S E A → (A → Tx S E B) → Tx S E B
◌>>=◌ m f s = bind (m s) (λ r. f r.0 r.1)

abbrev pub ◌>>◌ : {S E A B : Type 0} → Tx S E A → Tx S E B → Tx S E B
◌>>◌ m k s = bind (m s) (λ r. k r.1)

abbrev pub pure : {S E A : Type 0} → A → Tx S E A
pure a s = ok (a, s)

abbrev pub raise : {S E A : Type 0} → E → Tx S E A
raise e s = err e

-- `if c { return e }`
abbrev pub raise_if : {S E : Type 0} → Bool → E → Tx S E (Unit {0})
raise_if true e s = err e
raise_if false e s = ok (tt, s)

abbrev pub gets : {S E A : Type 0} → (S → A) → Tx S E A
gets f s = ok (f s, s)

abbrev pub modify : {S E : Type 0} → (S → S) → Tx S E (Unit {0})
modify f s = ok (tt, f s)

-- A value that a lookup found, or the error for its absence.
abbrev pub or_raise : {S E A : Type 0} → Option A → E → Tx S E A
or_raise none e s = err e
or_raise (some a) e s = ok (a, s)

abbrev pub err_map : {E F A : Type 0} → (E → F) → Result E A → Result F A
err_map f (ok r) = ok r
err_map f (err e) = err (f e)

-- `if err != nil { return morph(err) }`
abbrev pub map_err : {S E F A : Type 0} → (E → F) → Tx S E A → Tx S F A
map_err f m s = err_map f (m s)

-- A method whose writes are not all in one transaction: the store comes back after an error too.
abbrev pub Run : Type 0 → Type 0 → Type 0 → Type 0
Run S E A = S → Result E A × S

-- `DB().Transaction`: an error rolls the writes back.
abbrev pub commit : {S E A : Type 0} → Result E (A × S) → S → Result E A × S
commit (ok r) s = (ok r.0, r.1)
commit (err e) s = (err e, s)

abbrev pub transaction : {S E A : Type 0} → Tx S E A → Run S E A
transaction m s = commit (m s) s

-- The next step of such a method, after what the one before it wrote.
abbrev pub proceed : {S E A B : Type 0} → Result E A × S → (A → Run S E B) → Result E B × S
proceed (ok a, s) f = f a s
proceed (err e, s) f = (err e, s)

-- Inversion of a successful step.
pub bind-eq-ok :
    {E A B : Type 0} (m : Result E A) (f : A → Result E B) {r : B}
    → bind m f ≡ ok r
    → (a : A) × (m ≡ ok a) × (f a ≡ ok r)
bind-eq-ok (ok a) f h = (a, refl, h)
bind-eq-ok (err e) f h = cc

err_map-eq-ok :
    {E F A : Type 0} (f : E → F) (x : Result E A) {r : A} → err_map f x ≡ ok r → x ≡ ok r
err_map-eq-ok f (ok y) h = cc
err_map-eq-ok f (err y) h = cc

pub map_err-eq-ok :
    {S E F A : Type 0} (f : E → F) (m : Tx S E A) (s : S) {r : A × S}
    → map_err f m s ≡ ok r
    → m s ≡ ok r
map_err-eq-ok f m s h = err_map-eq-ok f (m s) h

pub raise_if-eq-ok :
    {S E : Type 0} (c : Bool) (e : E) (s : S) {r : Unit {0} × S}
    → raise_if c e s ≡ ok r
    → (c ≡ false) × (s ≡ r.1)
raise_if-eq-ok true e s h = cc
raise_if-eq-ok false e s h = (refl, cc)

pub or_raise-eq-ok :
    {S E A : Type 0} (o : Option A) (e : E) (s : S) {r : A × S}
    → or_raise o e s ≡ ok r
    → (o ≡ some r.0) × (s ≡ r.1)
or_raise-eq-ok none e s h = cc
or_raise-eq-ok (some a) e s h = (cc, cc)

pub pure-eq-ok :
    {S E A : Type 0} (a : A) (s : S) {r : A × S} → pure {E = E} a s ≡ ok r → (a ≡ r.0) × (s ≡ r.1)
pure-eq-ok a s h = (cc, cc)
