-- ===== src/Events/Gallery.antt =====
-- internal/event/service/event_service.go: covers and galleries, with the image rows of
-- event_repository.go and the columns of migrations/000009. Uploaded files that are not kept are
-- dropped from the storage, best effort, which is left out.
use rallya.Common.{
  ℕ, suc, String, str_eq, Bytes, codes, is_empty, Bool, true, false, not, ◌&&◌, Option, none, some,
  some_and, is_some, List, [], ◌∷◌, ◌++◌, leb, ltb, ◌==◌, find, filter, length, Tx, Result, ok, err,
  bind, ◌>>=◌, ◌>>◌, raise_if, or_raise, map_err, pure, gets, modify, if◌then◌else◌,
}
use rallya.Common.Int.{ℤ, pos, negsuc, is_positive, gt_bound}
use rallya.Model.Event.{Event, EventImage}
use rallya.Store.{
  Db, DbError, Env, StoredImage, failed, unique_violation, call, create_image as call_create_image,
  list_images as call_list_images,
}
use rallya.Orgs.Access.{resolve_org_id}
use rallya.Events.Types.{
  EventError, call_err, cover_too_large, cover_type, cover_required, too_many_files, internal,
}
use rallya.Events.Rows.{update_event_row}
use rallya.Events.Create.{resolve_event}
use rallya.Events.Lifecycle.{locate}

-- `GalleryUpload`, with its data read into memory; the content type was sniffed by the handler.
pub record GalleryUpload : Type 0 where
  pub contents : Bytes
  pub size : ℤ
  pub content_type : String

-- `maxCoverBytes`
abbrev max_cover_bytes : ℕ
max_cover_bytes = 5242880

-- `maxGalleryFiles`
abbrev pub max_gallery_files : ℕ
max_gallery_files = 10

-- `allowedCoverTypes`
abbrev allowed_cover_types : String → Option String
allowed_cover_types t =
    if str_eq t "image/jpeg"
    then some ".jpg"
    else if str_eq t "image/png"
    then some ".png"
    else if str_eq t "image/webp"
    then some ".webp"
    else none

abbrev ext_or : Option String → Result EventError String
ext_or none = err cover_type
ext_or (some ext) = ok ext

-- `checkCover`: the extension of an upload.
unfoldable pub check_cover : GalleryUpload → Result EventError String
check_cover u =
    if not (is_positive u.size)
    then err cover_required
    else if gt_bound u.size max_cover_bytes
    then err cover_too_large
    else ext_or (allowed_cover_types u.content_type)

-- The extension, in a method.
abbrev pub checked : GalleryUpload → Tx Db EventError String
unfolding check_cover
checked u db = bind (check_cover u) (λ ext. ok (ext, db))

-- `SetCover`
unfoldable pub set_cover : Env → String → String → GalleryUpload → Tx Db EventError Event
unfolding resolve_org_id resolve_event check_cover update_event_row
set_cover env org_ref event_ref u = do
  raise_if (not env.storage_wired) cover_required
  oe ← locate env org_ref event_ref
  ext ← checked u
  url ← or_raise (env.save_cover oe.0 oe.1.id u.contents ext) internal
  let e = record oe.1 { cover_url = some url }
  map_err call_err (update_event_row env e)
  pure e

abbrev int_fits : ℤ → Bool
int_fits (pos n) = ltb n 2147483648
int_fits (negsuc n) = ltb n 2147483648

-- The columns of `event_images`.
abbrev pub image_fits : EventImage → Bool
image_fits i =
    leb (length (codes i.format)) 20
    && (int_fits i.bytes && (int_fits i.width && int_fits i.height))

-- `CreateImage`
unfoldable pub create_image_row : Env → EventImage → Tx Db DbError (Unit {0})
create_image_row env i = do
  call env call_create_image
  raise_if (not (image_fits i)) failed
  parent ← gets (λ db. find (λ (e : Event). e.id == i.event_id) db.events)
  raise_if (not (is_some parent)) failed
  clash ← gets (λ db. find (λ (j : EventImage). j.id == i.id) db.event_images)
  raise_if (is_some clash) unique_violation
  modify (λ db. record db { event_images = db.event_images ++ i ∷ [] })

-- `ListImagesByEvent`
unfoldable pub list_images_by_event : Env → ℕ → Tx Db DbError (List EventImage)
list_images_by_event env id = do
  call env call_list_images
  gets (λ db. filter (λ (i : EventImage). i.event_id == id) db.event_images)

-- `ListImages`; toEventImage keeps all but the event.
unfoldable pub list_images : Env → String → String → Tx Db EventError (List EventImage)
unfolding resolve_org_id resolve_event list_images_by_event
list_images env org_ref event_ref = do
  oe ← locate env org_ref event_ref
  map_err call_err (list_images_by_event env oe.1.id)

abbrev stored_or : Option StoredImage → Result EventError StoredImage
stored_or none = err internal
stored_or (some i) = ok i

-- The loop that checks and uploads the files: the first failure ends it.
unfoldable pub stage : Env → ℕ → ℕ → List GalleryUpload → Result EventError (List StoredImage)
unfolding check_cover
stage env org_id id [] = ok []
stage env org_id id (u ∷ us) =
    let rest = stage env org_id id us in
    bind (check_cover u) (λ ext.
      bind (stored_or (env.save_image org_id id u.contents ext))
        (λ i. bind rest (λ is. ok (i ∷ is))))

abbrev pub staged : Env → ℕ → ℕ → List GalleryUpload → Tx Db EventError (List StoredImage)
staged env org_id id us db = bind (stage env org_id id us) (λ is. ok (is, db))

-- The rows of the uploads; each gets a new identifier.
abbrev pub image_rows : Env → ℕ → ℕ → List StoredImage → List EventImage
image_rows env event_id unit [] = []
image_rows env event_id unit (i ∷ is) =
    record {
      id = env.unit_id unit;
      event_id = event_id;
      url = i.url;
      public_id = i.public_id;
      format = i.format;
      bytes = i.bytes;
      width = i.width;
      height = i.height;
    }
    ∷ image_rows env event_id (suc unit) is

abbrev pub insert_images : Env → List EventImage → Tx Db EventError (Unit {0})
insert_images env [] = pure tt
insert_images env (i ∷ is) = map_err call_err (create_image_row env i) >> insert_images env is

-- An event without a cover takes the first image.
abbrev pub lacks_cover : Event → Bool
lacks_cover e = not (some_and e.cover_url (λ url. not (is_empty url)))

abbrev pub with_cover : List EventImage → Event → Event
with_cover [] e = e
with_cover (i ∷ is) e = record e { cover_url = some i.url }

abbrev pub clone_cover : Env → Bool → Event → Tx Db EventError (Unit {0})
clone_cover env true e = map_err call_err (update_event_row env e)
clone_cover env false e = pure tt

-- What `AddGalleryImages` has written.
pub record Added : Type 0 where
  pub event : Event
  pub cloned : Bool
  pub images : List EventImage

-- `AddGalleryImages`
unfoldable pub add_gallery_images :
    Env → String → String → List GalleryUpload → Tx Db EventError Added
unfolding resolve_org_id resolve_event stage create_image_row update_event_row
add_gallery_images env org_ref event_ref us = do
  raise_if (not env.storage_wired) cover_required
  raise_if (leb (length us) 0) cover_required
  raise_if (ltb max_gallery_files (length us)) too_many_files
  oe ← locate env org_ref event_ref
  stored ← staged env oe.0 oe.1.id us
  let rows = image_rows env oe.1.id 0 stored
  let cloned = lacks_cover oe.1
  let e = if cloned then with_cover rows oe.1 else oe.1
  insert_images env rows
  clone_cover env cloned e
  pure (record { event = e; cloned = cloned; images = rows })
