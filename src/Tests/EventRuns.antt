-- ===== src/Tests/EventRuns.antt =====
-- Runs of the event domain: a draft that is published, read, cancelled and read again.
use rallya.Common.{
  ℕ, ◌≡◌, refl, String, codes, trim_space, true, false, none, some, List, [], ◌∷◌, ◌++◌, map, ok,
  err, Result,
}
use rallya.Common.Int.{pos}
use rallya.Model.Organization.{Organization, Membership, member}
use rallya.Model.Event.{Event, draft}
use rallya.Store.{Db, Env}
use rallya.Orgs.Access.{MemberNotify, resolve_org_id, resolve_org, org_name}
use rallya.Orgs.Members.{notify_targets}
use rallya.Orgs.Rows.{list_memberships, get_org_by_id}
use rallya.Events.Types.{EventError, event_not_found}
use rallya.Events.Rows.{get_event_by_id, update_event_row}
use rallya.Events.Create.{resolve_event}
use rallya.Events.Lifecycle.{locate, publish, transition}
use rallya.Events.Gallery.{
  GalleryUpload, set_cover, add_gallery_images, check_cover, stage, create_image_row,
}
use rallya.Events.Serve.{
  Site, Request, publish_it, cancel_it, cover, gallery, view, serve, serve_all, get_public_event,
  published_event, purge_public_event,
}
use rallya.Events.Writes.{Saves}
use rallya.Events.Announced.{IsPublishing, mail_to, publish-eq-ok}
use rallya.Events.Caching.{answer_of}
use rallya.Events.Days.{public_read-transparent}
use rallya.Tests.World.{world, shop}

abbrev guild : Organization
guild = record {
  id = 9;
  name = "Guild";
  slug = codes "guild";
  logo_url = none;
  created_by = some 5;
  deleted = false;
}

abbrev ann_in : Membership
ann_in = record { id = 1; org_id = 9; user_id = 5; role = member; notify_events = true }

abbrev fete : Event
fete = record {
  id = 4;
  org_id = 9;
  title = "Fete";
  slug = codes "fete";
  description = none;
  venue = none;
  location = none;
  starts_at = some 2000;
  ends_at = some 3000;
  capacity = some (pos 50);
  cover_url = none;
  status = draft;
  created_by = some 5;
  deleted = false;
}

abbrev event_shop : Db
event_shop = record shop { orgs = guild ∷ []; memberships = ann_in ∷ []; events = fete ∷ [] }

abbrev stored : Result EventError (Event × Db) → Event × Db
stored (ok r) = r
stored (err e) = (fete, event_shop)

abbrev announced : Event × Db
announced = stored (publish (world 1000 40) 5 "9" "4" event_shop)

announced_ok : publish (world 1000 40) 5 "9" "4" event_shop ≡ ok announced
unfolding publish resolve_org_id resolve_org get_org_by_id resolve_event get_event_by_id
    update_event_row notify_targets list_memberships org_name trim_space
announced_ok = refl

publish-eq-ok_example :
    (oe : ℕ × Event) × (targets : List MemberNotify) × (name : String) × (locate
        (world 1000 40)
        "9"
        "4"
        event_shop
      ≡ ok (oe, event_shop))
    × IsPublishing (world 1000 40) oe.0 oe.1 announced.0 targets name event_shop
    × Saves announced.0 event_shop announced.1
    × (announced.1.event_mails ≡ event_shop.event_mails ++ map (mail_to announced.0 name) targets)
publish-eq-ok_example = publish-eq-ok (world 1000 40) 5 "9" "4" event_shop refl announced_ok

-- A picture that passes the checks.
abbrev picture : GalleryUpload
picture = record { contents = 1 ∷ []; size = pos 1; content_type = "image/png" }

-- Published, read into the cache, given a gallery and a cover, read after each, and cancelled, which
-- purges it.
abbrev event_day : List (Env × Request)
event_day =
    (world 1000 40, publish_it 5 "9" "4")
    ∷ (world 1001 41, view 4)
    ∷ (world 1001 42, gallery "9" "4" (picture ∷ []))
    ∷ (world 1001 43, view 4)
    ∷ (world 1002 44, cover "9" "4" picture)
    ∷ (world 1002 45, view 4)
    ∷ (world 1002 46, cancel_it 5 "9" "4")
    ∷ []

abbrev opened : Site
opened = record { db = event_shop; cache = [] }

public_read-transparent_example :
    (get_public_event (world 1003 43) 4 (serve_all event_day opened)).0
    ≡ answer_of (published_event (world 1003 43) 4 (serve_all event_day opened).db)
public_read-transparent_example =
    public_read-transparent event_day event_shop (world 1003 43) 4
      (
        (refl, refl),
        (
          (refl, refl),
          ((refl, refl), ((refl, refl), ((refl, refl), ((refl, refl), ((refl, refl), tt))))),
        ),
      )
      refl

cancelled_is_hidden :
    (get_public_event (world 1003 43) 4 (serve_all event_day opened)).0 ≡ err event_not_found
unfolding get_public_event published_event serve_all serve publish transition resolve_org_id
    resolve_org get_org_by_id resolve_event get_event_by_id update_event_row notify_targets
    list_memberships org_name trim_space purge_public_event set_cover add_gallery_images check_cover
    stage create_image_row
cancelled_is_hidden = refl
