-- ===== src/Attendees/Twice.antt =====
-- internal/attendee/service/attendee_service.go: which units of an order have a row after
-- `MintForOrder`.
use rallya.Common.{
  ℕ, zero, suc, ◌+◌, ◌≤◌, ◌<◌, ◌≡◌, refl, ap, sym, ◌∙◌, Bool, true, false, is_some, List, [], ◌∷◌,
  ◌++◌, arith, ok, find, map_err, map_err-eq-ok, bind-eq-ok, pure-eq-ok, ◌==◌, ==_iff, Option-cases,
  Bool-cases, inl, inr,
}
use rallya.Model.Attendee.{Attendee}
use rallya.Store.{Db, Env, exists_for_order as call_exists}
use rallya.Attendees.Types.{Minted, call_err}
use rallya.Attendees.Rows.{exists_for_order, is_unit}
use rallya.Attendees.Mint.{Buyer, mint_unit, mint_units, mint_for_order, unless_exists, unit_row}

-- The unit of the order has a row.
abbrev pub has_unit : ℕ → Db → ℕ → Bool
has_unit order db unit = is_some (find (is_unit order unit) db.attendees)

find-more :
    (p : Attendee → Bool) (xs ys : List Attendee)
    → is_some (find p xs) ≡ true
    → is_some (find p (xs ++ ys)) ≡ true
find-more p [] ys h = cc
find-more p (x ∷ xs) ys h = elim (Bool-cases (p x)) [
  | inl here ↦ rw here refl
  | inr further ↦ rw further (find-more p xs ys (ground arith))
]

find-last :
    (p : Attendee → Bool) (xs : List Attendee) (a : Attendee)
    → p a ≡ true
    → is_some (find p (xs ++ a ∷ [])) ≡ true
find-last p [] a h = rw h refl
find-last p (x ∷ xs) a h = elim (Bool-cases (p x)) [
  | inl here ↦ rw here refl
  | inr further ↦ rw further (find-last p xs a h)
]

mint_unit-eq-ok :
    (env : Env) (b : Buyer) (unit : ℕ) (db : Db) {r : List Minted × Db}
    → mint_unit env b unit db ≡ ok r
    → (a : Attendee) × (is_unit b.order_id unit a ≡ true) × (r.1.attendees ≡ db.attendees ++ a ∷ [])
unfolding mint_unit
mint_unit-eq-ok env b unit db h = elim (Option-cases (env.token unit)) [
  | inl missing ↦ absurd (ground arith)
  | inr (t, e) ↦ (unit_row env b unit t, ground arith, ground arith)
]

step-keeps :
    (env : Env) (b : Buyer) (unit j : ℕ) (seen : Bool) (db : Db) {r : List Minted × Db}
    → unless_exists seen (mint_unit env b unit) db ≡ ok r
    → has_unit b.order_id db j ≡ true
    → has_unit b.order_id r.1 j ≡ true
step-keeps env b unit j true db h has = ground arith
step-keeps env b unit j false db h has =
    let (a, mine, added) = mint_unit-eq-ok env b unit db h in
    rw added (find-more (is_unit b.order_id j) db.attendees (a ∷ []) has)

step-has :
    (env : Env) (b : Buyer) (unit : ℕ) (seen : Bool) (db : Db) {r : List Minted × Db}
    → seen ≡ has_unit b.order_id db unit
    → unless_exists seen (mint_unit env b unit) db ≡ ok r
    → has_unit b.order_id r.1 unit ≡ true
step-has env b unit true db saw h = ground arith
step-has env b unit false db saw h =
    let (a, mine, added) = mint_unit-eq-ok env b unit db h in
    rw added (find-last (is_unit b.order_id unit) db.attendees a mine)

exists_for_order-eq-ok :
    (env : Env) (order unit : ℕ) (db : Db) {r : Bool × Db}
    → exists_for_order env order unit db ≡ ok r
    → (r.0 ≡ has_unit order db unit) × (db ≡ r.1)
unfolding exists_for_order
exists_for_order-eq-ok env order unit db h = (ground arith, ground arith)

mint_units-keeps :
    (env : Env) (b : Buyer) (unit left j : ℕ) (db : Db) {r : List Minted × Db}
    → mint_units env b unit left db ≡ ok r
    → has_unit b.order_id db j ≡ true
    → has_unit b.order_id r.1 j ≡ true
unfolding mint_units
mint_units-keeps env b unit zero j db h has = ground arith
mint_units-keeps env b unit (suc left) j db h has =
    let (seen, e, k) =
      bind-eq-ok (map_err call_err (exists_for_order env b.order_id unit) db) _ h in
    let (made, e', k') = bind-eq-ok (unless_exists seen.0 (mint_unit env b unit) seen.1) _ k in
    let (rest, e'', k'') = bind-eq-ok (mint_units env b (unit + 1) left made.1) _ k' in
    let (saw, same) =
      exists_for_order-eq-ok env b.order_id unit db
        (map_err-eq-ok call_err (exists_for_order env b.order_id unit) db e) in
    ap (λ x. has_unit b.order_id x j) (sym (pure-eq-ok _ rest.1 k'').1)
    ∙ mint_units-keeps env b (unit + 1) left j made.1 e'' (
        step-keeps env b unit j seen.0 seen.1 e'
          (ap (λ x. has_unit b.order_id x j) (sym same) ∙ has))

-- Minting that succeeds leaves a door record for every unit that was asked for.
pub mint_units-has :
    (env : Env) (b : Buyer) (unit left j : ℕ) (db : Db) {r : List Minted × Db}
    → mint_units env b unit left db ≡ ok r
    → unit ≤ j
    → j < unit + left
    → has_unit b.order_id r.1 j ≡ true
unfolding mint_units
mint_units-has env b unit zero j db h low high = absurd (omega arith)
mint_units-has env b unit (suc left) j db h low high =
    let (seen, e, k) =
      bind-eq-ok (map_err call_err (exists_for_order env b.order_id unit) db) _ h in
    let (made, e', k') = bind-eq-ok (unless_exists seen.0 (mint_unit env b unit) seen.1) _ k in
    let (rest, e'', k'') = bind-eq-ok (mint_units env b (unit + 1) left made.1) _ k' in
    let (saw, same) =
      exists_for_order-eq-ok env b.order_id unit db
        (map_err-eq-ok call_err (exists_for_order env b.order_id unit) db e) in
    ap (λ x. has_unit b.order_id x j) (sym (pure-eq-ok _ rest.1 k'').1)
    ∙ elim (Bool-cases (unit == j)) [
      | inl this ↦ mint_units-keeps env b (unit + 1) left j made.1 e'' (
          ap (has_unit b.order_id made.1) (sym ((==_iff unit j).0 this))
          ∙ step-has env b unit seen.0 seen.1 (saw ∙ ap (λ x. has_unit b.order_id x unit) same) e')
      | inr later ↦ mint_units-has env b (unit + 1) left j made.1 e'' (ground arith) (omega arith)
    ]

-- If every unit has its row already, minting makes nothing.
mint_units-idle :
    (env : Env) (b : Buyer) (unit left : ℕ) (db : Db)
    → ((j : ℕ) → env.fault (call_exists j) ≡ false)
    → ((j : ℕ) → unit ≤ j → j < unit + left → has_unit b.order_id db j ≡ true)
    → mint_units env b unit left db ≡ ok ([], db)
unfolding mint_units exists_for_order
mint_units-idle env b unit zero db reads all = refl
mint_units-idle env b unit (suc left) db reads all =
    rw
      (
        reads unit,
        all unit (omega arith) (omega arith),
        mint_units-idle env b (unit + 1) left db reads
            (λ j low high. all j (omega arith) (omega arith)),
      )
      refl

-- Minting an order's door records again, after it has succeeded, makes none and changes nothing, if
-- the lookups of the second run work.
pub mint_for_order_again :
    (env env' : Env) (b : Buyer) (quantity : ℕ) (db : Db) {r : List Minted × Db}
    → ((j : ℕ) → env'.fault (call_exists j) ≡ false)
    → mint_for_order env b quantity db ≡ ok r
    → mint_for_order env' b quantity r.1 ≡ ok ([], r.1)
unfolding mint_for_order
mint_for_order_again env env' b quantity db {r = r} reads h =
    mint_units-idle env' b 0 quantity r.1 reads
      (λ j low high. mint_units-has env b 0 quantity j db h low high)
