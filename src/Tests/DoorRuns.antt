-- ===== src/Tests/DoorRuns.antt =====
-- Ann at the door.
use rallya.Common.{
  ok, trim_space, ℕ, ◌≡◌, ◌==◌, ◌++◌, Bytes, refl, true, some, [], ◌∷◌, find, arith,
}
use rallya.Model.Attendee.{Attendee}
use rallya.Model.Checkin.{already_checked_in}
use rallya.Store.{Db}
use rallya.Attendees.Rows.{has_id}
use rallya.Attendees.Payload.{verified, build_payload, verify_payload, split_dots}
use rallya.Attendees.Stamps.{Stamped, after_scan}
use rallya.Attendees.Tokens.{Signed, verify_payload-build_payload, verify_payload-Signed}
use rallya.Checkin.Scan.{scan, scan_batch, scan_manual, revert, log_of}
use rallya.Checkin.Trail.{answer, scan_manual-eq-ok}
use rallya.Checkin.Repeats.{scan_manual_again, revert-scan_manual}
use rallya.Checkin.Always.{scan-Stamped, scan_batch-Stamped}
use rallya.Attendees.Mint.{Buyer, mint_for_order}
use rallya.Attendees.Twice.{mint_for_order_again}
use rallya.Tests.World.{world, shop, after, result}

abbrev code : Bytes
code = build_payload (world 1000 50) 8 (84 ∷ 48 ∷ [])

shop-Stamped : Stamped shop
shop-Stamped = (refl, tt)

-- Ann by hand, `56` being the digit 8.
abbrev inside : Db
inside = after (scan_manual (world 1000 50) 9 "fair" (56 ∷ []) 6 shop)

inside-Stamped : Stamped inside
unfolding scan_manual
inside-Stamped = (refl, tt)

scan-Stamped_example : Stamped (scan (world 1000 50) 9 "fair" code [] 6 shop).1
scan-Stamped_example = scan-Stamped (world 1000 50) 9 "fair" code [] 6 shop shop-Stamped

scan_batch-Stamped_example :
    Stamped (scan_batch (world 1000 50) 9 "fair" (code ∷ (1 ∷ []) ∷ code ∷ []) 6 shop).1
scan_batch-Stamped_example =
    scan_batch-Stamped (world 1000 50) 9 "fair" (code ∷ (1 ∷ []) ∷ code ∷ []) 6 shop shop-Stamped

scan_manual-eq-ok_example :
    (event_id : ℕ) × (id : ℕ) × (a : Attendee) × (some 3 ≡ some event_id)
    × (some 8 ≡ some id)
    × (find (has_id id) shop.attendees ≡ some a)
    × ((result (scan_manual (world 1000 50) 9 "fair" (56 ∷ []) 6 shop)).outcome
        ≡ answer (a.event_id == event_id) true a.status)
    × (inside.attendees
        ≡ (after_scan (world 1000 50) (a.event_id == event_id) true a shop).attendees)
    × (inside.checkin_logs
        ≡ shop.checkin_logs
          ++ log_of event_id 6 (result (scan_manual (world 1000 50) 9 "fair" (56 ∷ []) 6 shop))
            ∷ [])
unfolding scan_manual
scan_manual-eq-ok_example = scan_manual-eq-ok (world 1000 50) 9 "fair" (56 ∷ []) 6 shop refl

scan_manual_again_example :
    ((result (scan_manual (world 1001 50) 9 "fair" (56 ∷ []) 4 inside)).outcome
      ≡ already_checked_in)
    × ((after (scan_manual (world 1001 50) 9 "fair" (56 ∷ []) 4 inside)).attendees
        ≡ inside.attendees)
unfolding scan_manual
scan_manual_again_example =
    scan_manual_again (world 1000 50) (world 1001 50) 9 "fair" (56 ∷ []) 6 4 shop refl refl refl
      refl refl

revert-scan_manual_example :
    (after (revert (world 1001 50) 9 "fair" (56 ∷ []) 4 inside)).attendees ≡ shop.attendees
unfolding scan_manual revert
revert-scan_manual_example =
    revert-scan_manual (world 1000 50) (world 1001 50) 9 "fair" (56 ∷ []) 6 4 shop shop-Stamped refl
      refl refl refl refl

verify_payload-build_payload_example :
    verify_payload (world 1000 50) code
    ≡ verified (record { attendee_id = 8; raw_token = 84 ∷ 48 ∷ [] })
verify_payload-build_payload_example =
    verify_payload-build_payload (world 1000 50) 8 (84 ∷ 48 ∷ []) (refl, tt) refl refl
      (omega arith, (omega arith, tt)) refl (refl, (refl, tt)) refl

code-verified :
    verify_payload (world 1000 50) code
    ≡ verified (record { attendee_id = 8; raw_token = 84 ∷ 48 ∷ [] })
unfolding verify_payload build_payload
code-verified = refl

verify_payload-Signed_example :
    Signed (world 1000 50) (record { attendee_id = 8; raw_token = 84 ∷ 48 ∷ [] }) (split_dots code)
verify_payload-Signed_example = verify_payload-Signed (world 1000 50) code code-verified

abbrev buyer : Buyer
buyer = record { order_id = 30; user_id = 5; event_id = 3; email = "ann@example.org"; name = "Ann" }

mint_for_order_again_example :
    mint_for_order (world 1001 60) buyer 2 (after (mint_for_order (world 1000 50) buyer 2 shop))
    ≡ ok ([], after (mint_for_order (world 1000 50) buyer 2 shop))
unfolding mint_for_order trim_space
mint_for_order_again_example =
    mint_for_order_again (world 1000 50) (world 1001 60) buyer 2 shop (λ j. refl) refl
