-- ===== src/Events/Serve.antt =====
-- internal/event/service/event_service.go: reads, the cache of public payloads (`DetailCache`), and
-- the purge that follows every committed write.
use rallya.Common.{
  ℕ, String, Bool, false, not, ◌&&◌, Option, none, some, List, [], ◌∷◌, ◌==◌, find, filter, Tx,
  Result, ok, err, ◌>>=◌, ◌>>◌, raise_if, map_err, pure, if◌then◌else◌, gets,
}
use rallya.Model.Event.{Event, EventImage, is_published}
use rallya.Store.{Db, Env, cache_get, cache_set, cache_del}
use rallya.Orgs.Access.{is_member}
use rallya.Events.Types.{EventError, EventView, CreateInput, event_err, to_event, event_not_found}
use rallya.Events.Rows.{get_event_by_id}
use rallya.Events.Create.{create_event}
use rallya.Events.Gallery.{GalleryUpload, Added, set_cover, add_gallery_images}
use rallya.Events.Lifecycle.{
  UpdateInput, locate, update_event, publish, transition, unpublish, cancel, delete_event,
}

-- A payload under its key, `publicEventKey` of the id.
pub record Cached : Type 0 where
  pub key : ℕ
  pub payload : EventView

-- The database and the cache, which no transaction spans.
pub record Site : Type 0 where
  pub db : Db
  pub cache : List Cached

abbrev pub under : ℕ → Cached → Bool
under id c = c.key == id

abbrev pub without : ℕ → List Cached → List Cached
without id = filter (λ c. not (under id c))

-- `purgePublicEvent`: a failed purge is logged.
unfoldable pub purge_public_event : Env → ℕ → List Cached → List Cached
purge_public_event env id cache =
    if env.cache_wired && not (env.fault cache_del) then without id cache else cache

-- A write, the purge that follows it, and its answer.
abbrev pub then_purge :
    Env → Result EventError (Event × Db) → Site → Result EventError EventView × Site
then_purge env (err e) s = (err e, s)
then_purge env (ok r) s =
    (ok (to_event r.0), record { db = r.1; cache = purge_public_event env r.0.id s.cache })

-- `CreateEvent` purges nothing.
abbrev pub without_purge :
    Result EventError (Event × Db) → Site → Result EventError EventView × Site
without_purge (err e) s = (err e, s)
without_purge (ok r) s = (ok (to_event r.0), record s { db = r.1 })

-- `AddGalleryImages` purges only when it has cloned a cover.
abbrev pub then_purge_cloned :
    Env → Result EventError (Added × Db) → Site → Result EventError (List EventImage) × Site
then_purge_cloned env (err e) s = (err e, s)
then_purge_cloned env (ok r) s = (
  ok r.0.images,
  record {
    db = r.1;
    cache = if r.0.cloned then purge_public_event env r.0.event.id s.cache else s.cache;
  },
)

-- `GetEvent`: a draft is shown to members only.
unfoldable pub get_event : Env → Option ℕ → String → String → Tx Db EventError EventView
unfolding to_event
get_event env caller org_ref event_ref = do
  oe ← locate env org_ref event_ref
  insider ← gets (λ db. elim caller [ none ↦ false | some user ↦ is_member env user oe.0 db ])
  raise_if (not (is_published oe.1) && not insider) event_not_found
  pure (to_event oe.1)

-- What `GetPublicEvent` finds in the database.
unfoldable pub published_event : Env → ℕ → Tx Db EventError EventView
unfolding get_event_by_id to_event
published_event env id = do
  e ← map_err event_err (get_event_by_id env id)
  raise_if (not (is_published e)) event_not_found
  pure (to_event e)

-- The payload is stored under its key; a failed write is logged.
abbrev pub store_public : Env → ℕ → EventView → List Cached → List Cached
store_public env id v cache =
    if env.cache_wired && not (env.fault cache_set)
    then record { key = id; payload = v } ∷ without id cache
    else cache

abbrev pub then_store :
    Env → ℕ → Result EventError (EventView × Db) → Site → Result EventError EventView × Site
then_store env id (err e) s = (err e, s)
then_store env id (ok r) s = (ok r.0, record { db = r.1; cache = store_public env id r.0 s.cache })

-- The cache's answer; a failed read falls through.
abbrev pub hit : Env → ℕ → List Cached → Option Cached
hit env id cache =
    if env.cache_wired && not (env.fault cache_get) then find (under id) cache else none

-- A hit is the answer; a miss reads the database and stores what it found.
abbrev pub answer_public : Env → ℕ → Option Cached → Site → Result EventError EventView × Site
answer_public env id (some c) s = (ok c.payload, s)
answer_public env id none s = then_store env id (published_event env id s.db) s

-- `GetPublicEvent`
unfoldable pub get_public_event : Env → ℕ → Site → Result EventError EventView × Site
unfolding published_event
get_public_event env id s = answer_public env id (hit env id s.cache) s

-- The requests of a day, and the expiry of a cached payload.
pub data Request : Type 0 where
  create : ℕ → String → CreateInput → Request
  update : ℕ → String → String → UpdateInput → Request
  publish_it unpublish_it cancel_it delete_it : ℕ → String → String → Request
  cover : String → String → GalleryUpload → Request
  gallery : String → String → List GalleryUpload → Request
  view : ℕ → Request
  expire : ℕ → Request

unfoldable pub serve : Env → Request → Site → Site
unfolding create_event update_event publish transition delete_event set_cover add_gallery_images
    get_public_event purge_public_event to_event
serve env (create user org_ref i) s = (without_purge (create_event env user org_ref i s.db) s).1
serve env (update user org_ref ref i) s =
    (then_purge env (update_event env user org_ref ref i s.db) s).1
serve env (publish_it user org_ref ref) s = (then_purge env (publish env user org_ref ref s.db) s).1
serve env (unpublish_it user org_ref ref) s =
    (then_purge env (unpublish env user org_ref ref s.db) s).1
serve env (cancel_it user org_ref ref) s = (then_purge env (cancel env user org_ref ref s.db) s).1
serve env (delete_it user org_ref ref) s =
    (then_purge env (delete_event env user org_ref ref s.db) s).1
serve env (cover org_ref ref u) s = (then_purge env (set_cover env org_ref ref u s.db) s).1
serve env (gallery org_ref ref us) s =
    (then_purge_cloned env (add_gallery_images env org_ref ref us s.db) s).1
serve env (view id) s = (get_public_event env id s).1
serve env (expire id) s = record s { cache = without id s.cache }

-- A day: one request after the other, each with what it reads of the outside.
unfoldable pub serve_all : List (Env × Request) → Site → Site
unfolding serve
serve_all [] s = s
serve_all (q ∷ qs) s = serve_all qs (serve q.0 q.1 s)
