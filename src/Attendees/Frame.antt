-- ===== src/Attendees/Frame.antt =====
-- internal/attendee/service/attendee_service.go: the tables that `MintForOrder` writes.
use rallya.Common.{ℕ, zero, suc, ◌+◌, ◌≡◌, Bool, true, false, List, arith, map_err, ok, bind-eq-ok}
use rallya.Store.{Db, Env}
use rallya.Attendees.Types.{Minted, call_err}
use rallya.Attendees.Rows.{exists_for_order}
use rallya.Attendees.Mint.{Buyer, mint_unit, mint_units, unless_exists}

-- Two databases that differ at most in their attendees.
abbrev pub OnlyAttendees : Db → Db → Type 0
OnlyAttendees db db' = db' ≡ record db { attendees = db'.attendees }

mint_unit-OnlyAttendees :
    (env : Env) (b : Buyer) (unit : ℕ) (db : Db) {r : List Minted × Db}
    → mint_unit env b unit db ≡ ok r
    → OnlyAttendees db r.1
unfolding mint_unit
mint_unit-OnlyAttendees env b unit db h = ground arith

step-OnlyAttendees :
    (env : Env) (b : Buyer) (unit : ℕ) (seen : Bool) (db : Db) {r : List Minted × Db}
    → unless_exists seen (mint_unit env b unit) db ≡ ok r
    → OnlyAttendees db r.1
step-OnlyAttendees env b unit true db h = ground arith
step-OnlyAttendees env b unit false db h = mint_unit-OnlyAttendees env b unit db h

pub mint_units-OnlyAttendees :
    (env : Env) (b : Buyer) (unit left : ℕ) (db : Db) {r : List Minted × Db}
    → mint_units env b unit left db ≡ ok r
    → OnlyAttendees db r.1
unfolding mint_units exists_for_order
mint_units-OnlyAttendees env b unit zero db h = ground arith
mint_units-OnlyAttendees env b unit (suc left) db h =
    let (seen, e, k) =
      bind-eq-ok (map_err call_err (exists_for_order env b.order_id unit) db) _ h in
    let (made, e', k') = bind-eq-ok (unless_exists seen.0 (mint_unit env b unit) seen.1) _ k in
    let (rest, e'', k'') = bind-eq-ok (mint_units env b (unit + 1) left made.1) _ k' in
    ground (
      arith,
      step-OnlyAttendees env b unit seen.0 seen.1 e',
      mint_units-OnlyAttendees env b (unit + 1) left made.1 e'',
    )
