-- ===== src/Tests/KitRuns.antt =====
-- Runs of the kit domain: a kit of one unit and a kit of two, an attendee who is checked in, a retry
-- by a tablet, and a quantity that is cut below what is reserved.
use rallya.Common.{◌≡◌, refl, true, none, some, [], ◌∷◌, ok, err, Result, count, arith, trim_space}
use rallya.Common.Int.{pos}
use rallya.Model.Kit.{Kit, pending}
use rallya.Model.Attendee.{Attendee, checked_in}
use rallya.Store.{Db}
use rallya.Attendees.Door.{attendee_status_in_event}
use rallya.Attendees.Rows.{get_attendee_by_id}
use rallya.Kits.Types.{CollectionView}
use rallya.Kits.Rows.{
  get_kit_row, count_active, find_by_idempotency, create_collection_row, get_collection_row,
  update_collection_row, count_collected, update_kit_row, handed_over,
}
use rallya.Kits.Manage.{update_kit_tx, delete_kit}
use rallya.Kits.Handout.{collect, mark_collected, void, hand_out, transition}
use rallya.Kits.Days.{stay, go, handed, voided_one, door_day-Sound, DoorSound}
use rallya.Kits.Replays.{collect_again}
use rallya.Tests.World.{world, shop, ann, after}

abbrev shirt : Kit
shirt = record { id = 4; event_id = 3; name = "T-shirt"; description = ""; quantity_total = 2 }

abbrev inside_ann : Attendee
inside_ann = record ann { status = checked_in; checked_in_at = some 990 }

abbrev inside_bob : Attendee
inside_bob = record inside_ann { id = 9; unit_index = 1; email = "bob@example.org" }

abbrev kit_shop : Db
kit_shop = record shop { attendees = inside_ann ∷ inside_bob ∷ []; kits = shirt ∷ [] }

abbrev view_of : {E : Type 0} → Result E (CollectionView × Db) → CollectionView × Db
view_of (ok r) = r
view_of (err e) = (
  record {
    collection = record {
      id = 0;
      kit_id = 0;
      event_id = 0;
      attendee_id = 0;
      idempotency_key = "";
      status = pending;
      collected_at = none;
      collected_by = none;
    };
    kit_name = "";
  },
  shop,
)

-- Ann reserves a shirt under a tablet's key, at time 1000.
abbrev reserved : CollectionView × Db
reserved = view_of (collect (world 1000 40) 9 "fair" "4" "8" true "tab-1" 6 kit_shop)

reserved_ok : collect (world 1000 40) 9 "fair" "4" "8" true "tab-1" 6 kit_shop ≡ ok reserved
unfolding collect get_kit_row find_by_idempotency hand_out attendee_status_in_event
    get_attendee_by_id count_active create_collection_row trim_space
reserved_ok = refl

kit_shop-Sound : DoorSound kit_shop
kit_shop-Sound = (((tt, tt), (ground arith, tt)), tt)

-- The retry, an hour later, by another member of staff.
collect_again_example :
    collect (world 4600 41) 9 "fair" "4" "8" true "tab-1" 7 reserved.1 ≡ ok reserved
collect_again_example =
    collect_again (world 1000 40) (world 4600 41) 9 "fair" "4" "8" true true "tab-1" 6 7 kit_shop
      refl refl refl refl refl refl reserved_ok

-- The reservation is voided.
abbrev given_up : CollectionView × Db
given_up = view_of (void (world 1100 42) 9 "fair" "X" 6 reserved.1)

given_up_ok : void (world 1100 42) 9 "fair" "X" 6 reserved.1 ≡ ok given_up
unfolding collect get_kit_row find_by_idempotency hand_out attendee_status_in_event
    get_attendee_by_id count_active create_collection_row trim_space void transition
    get_collection_row update_collection_row
given_up_ok = refl

door_day-Sound_example : DoorSound given_up.1
door_day-Sound_example =
    door_day-Sound given_up.1 kit_shop
      (go kit_shop reserved.1
        (handed (world 1000 40) 9 "fair" "4" "8" true "tab-1" 6 reserved reserved_ok)
        (go reserved.1 given_up.1 (voided_one (world 1100 42) 9 "fair" "X" 6 given_up given_up_ok)
          stay))
      kit_shop-Sound

-- A kit whose handouts are all voided can be deleted.
abbrev without : Db
without = after (delete_kit (world 1200 43) 9 "fair" "4" 6 given_up.1)

-- Ann and Bob each reserve one of two shirts; the quantity is cut to one; both are handed over.
abbrev both_reserved : Db
both_reserved = (view_of (collect (world 1001 41) 9 "fair" "4" "9" true "" 6 reserved.1)).1

abbrev cut : Db
cut = after (update_kit_tx (world 1002 42) 9 3 4 none none (some (pos 1)) 6 both_reserved)

abbrev both_collected : Db
both_collected =
    (view_of (
      mark_collected (world 1004 44) 9 "fair" "Y" 6
        (view_of (mark_collected (world 1003 43) 9 "fair" "X" 6 cut)).1)).1

overhanded :
    (both_collected.kits ≡ record shirt { quantity_total = 1 } ∷ [])
    × (count (handed_over 4) both_collected.collections ≡ 2)
unfolding collect get_kit_row find_by_idempotency hand_out attendee_status_in_event
    get_attendee_by_id count_active create_collection_row trim_space update_kit_tx count_collected
    update_kit_row mark_collected transition get_collection_row update_collection_row
overhanded = (refl, refl)
