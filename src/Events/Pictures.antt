-- ===== src/Events/Pictures.antt =====
-- internal/event/service/event_service.go: what `SetCover` and `AddGalleryImages` write.
use rallya.Common.{
  ◌≡◌, ap, ◌∙◌, String, Bool, true, false, not, some, List, [], ◌∷◌, arith, ok, err, Result,
  pure-eq-ok, bind, find, ltb, leb, length, map_err, map_err-eq-ok, Reads, read-eq-ok, found-eq-ok,
  guard-eq-ok, bind-eq-ok, if◌then◌else◌,
}
use rallya.Model.Event.{Event, EventImage}
use rallya.Store.{Db, Env}
use rallya.Events.Types.{EventError, call_err, cover_required, too_many_files, internal}
use rallya.Events.Rows.{has_event, update_event_row}
use rallya.Events.Lifecycle.{locate}
use rallya.Events.Gallery.{
  GalleryUpload, Added, set_cover, add_gallery_images, check_cover, checked, staged, stage,
  create_image_row, insert_images, clone_cover, lacks_cover, with_cover, image_rows,
  max_gallery_files,
}
use rallya.Events.Apart.{Apart, locate-Reads, update_event_row-eq-ok}
use rallya.Events.Writes.{Saves-Apart}

-- A check or an upload writes nothing to the database.
lift-Reads :
    {A : Type 0} (x : Result EventError A) → Reads {S = Db} (λ db. bind x (λ a. ok (a, db)))
lift-Reads (ok a) s r h = ground arith
lift-Reads (err e) s r h = absurd (ground arith)

saved_as :
    (db : Db) {a b : Event} {v w : Db}
    → b ≡ a
    → w ≡ v
    → Apart b.id db.events w.events
    → Apart a.id db.events v.events
saved_as db answer store h = rw (← answer, ← store) h

pub set_cover-Apart :
    (env : Env) (org_ref ref : String) (u : GalleryUpload) (db : Db) {r : Event × Db}
    → set_cover env org_ref ref u db ≡ ok r
    → Apart r.0.id db.events r.1.events
unfolding set_cover
set_cover-Apart env org_ref ref u db {r = r} h =
    let (wired, h0) = guard-eq-ok (not env.storage_wired) cover_required _ db h in
    let (oe, e1, h1) = read-eq-ok (locate env org_ref ref) _ db (locate-Reads env org_ref ref) h0 in
    let (ext, e2, h2) = read-eq-ok (checked u) _ db (lift-Reads (check_cover u)) h1 in
    let (url, e3, h3) = found-eq-ok (env.save_cover oe.0 oe.1.id u.contents ext) internal _ db h2 in
    let e : Event = record oe.1 { cover_url = some url } in
    let (v, e4, h4) = bind-eq-ok (map_err call_err (update_event_row env e) db) _ h3 in
    let (rows, mails) =
      update_event_row-eq-ok env e db (map_err-eq-ok call_err (update_event_row env e) db e4) in
    let (answer, store) = pure-eq-ok e v.1 h4 in
    saved_as db answer store (Saves-Apart e db v.1 rows)

create_image_row-events :
    (env : Env) (i : EventImage) (db : Db) {r : Unit {0} × Db}
    → create_image_row env i db ≡ ok r
    → r.1.events ≡ db.events
unfolding create_image_row
create_image_row-events env i db h = ground arith

insert_images-events :
    (env : Env) (is : List EventImage) (db : Db) {r : Unit {0} × Db}
    → insert_images env is db ≡ ok r
    → r.1.events ≡ db.events
insert_images-events env [] db h = ground arith
insert_images-events env (i ∷ is) db h =
    let (v, e0, h0) = bind-eq-ok (map_err call_err (create_image_row env i) db) _ h in
    insert_images-events env is v.1 h0
    ∙ create_image_row-events env i db (map_err-eq-ok call_err (create_image_row env i) db e0)

-- Without a cloned cover no event changes, with one only that event.
abbrev pub Touches : Bool → Event → Db → Db → Type 0
Touches true e db db' = Apart e.id db.events db'.events
Touches false e db db' = db'.events ≡ db.events

clone_cover-Touches :
    (env : Env) (cloned : Bool) (e : Event) (db : Db) {r : Unit {0} × Db}
    → clone_cover env cloned e db ≡ ok r
    → Touches cloned e db r.1
clone_cover-Touches env false e db h = ground arith
clone_cover-Touches env true e db {r = r} h =
    let (rows, mails) =
      update_event_row-eq-ok env e db (map_err-eq-ok call_err (update_event_row env e) db h) in
    Saves-Apart e db r.1 rows

Touches-after :
    (cloned : Bool) (e : Event) (db v w : Db)
    → v.events ≡ db.events
    → Touches cloned e v w
    → Touches cloned e db w
Touches-after true e db v w same h = λ k further. h k further ∙ ap (find (has_event k)) same
Touches-after false e db v w same h = h ∙ same

as_answered :
    (db : Db) {a b : Added} {v w : Db}
    → b ≡ a
    → w ≡ v
    → Touches b.cloned b.event db w
    → Touches a.cloned a.event db v
as_answered db answer store h = rw (← answer, ← store) h

pub add_gallery_images-Touches :
    (env : Env) (org_ref ref : String) (us : List GalleryUpload) (db : Db) {r : Added × Db}
    → add_gallery_images env org_ref ref us db ≡ ok r
    → Touches r.0.cloned r.0.event db r.1
unfolding add_gallery_images
add_gallery_images-Touches env org_ref ref us db {r = r} h =
    let (wired, h0) = guard-eq-ok (not env.storage_wired) cover_required _ db h in
    let (some_files, h1) = guard-eq-ok (leb (length us) 0) cover_required _ db h0 in
    let (few, h2) = guard-eq-ok (ltb max_gallery_files (length us)) too_many_files _ db h1 in
    let (oe, e3, h3) = read-eq-ok (locate env org_ref ref) _ db (locate-Reads env org_ref ref) h2 in
    let (kept, e4, h4) =
      read-eq-ok (staged env oe.0 oe.1.id us) _ db (lift-Reads (stage env oe.0 oe.1.id us)) h3 in
    let rows = image_rows env oe.1.id 0 kept in
    let cloned = lacks_cover oe.1 in
    let e = if cloned then with_cover rows oe.1 else oe.1 in
    let (v, e5, h5) = bind-eq-ok (insert_images env rows db) _ h4 in
    let (w, e6, h6) = bind-eq-ok (clone_cover env cloned e v.1) _ h5 in
    let touched =
      Touches-after cloned e db v.1 w.1 (insert_images-events env rows db e5)
        (clone_cover-Touches env cloned e v.1 e6) in
    let (answer, store) =
      pure-eq-ok (record { event = e; cloned = cloned; images = rows }) w.1 h6 in
    as_answered db answer store touched
