-- ===== src/Events/Announced.antt =====
-- internal/event/service/event_service.go: what `Publish` writes and whom it tells, and what
-- `CreateEvent` writes.
use rallya.Common.{
  ℕ, ◌≡◌, refl, ap, ◌∙◌, String, true, not, List, [], ◌∷◌, ◌++◌, map, arith, ok, map_err,
  map_err-eq-ok, Reads, Reads-map_err, read-eq-ok, guard-eq-ok, bind-eq-ok,
}
use rallya.Model.Event.{Event, status_eq, draft, published}
use rallya.Store.{Db, Env, EventMail}
use rallya.Orgs.Access.{MemberNotify, org_name}
use rallya.Orgs.Members.{notify_targets}
use rallya.Orgs.Rows.{list_memberships, get_org_by_id}
use rallya.Events.Types.{call_err, passed_on, invalid_status}
use rallya.Events.Lifecycle.{locate, save_status, publish, announce, announce_all}
use rallya.Events.Apart.{Apart, locate-Reads}
use rallya.Events.Writes.{Saves, Saves-Apart, save_status-eq-ok}

notify_targets-Reads : (env : Env) (org : ℕ) → Reads (notify_targets env org)
unfolding notify_targets list_memberships
notify_targets-Reads env org s r h = ground arith

org_name-Reads : (env : Env) (org : ℕ) → Reads (org_name env org)
unfolding org_name get_org_by_id
org_name-Reads env org s r h = ground arith

-- The mail of one member.
abbrev pub mail_to : Event → String → MemberNotify → EventMail
mail_to e name t = record {
  event_id = e.id;
  event_title = e.title;
  org_name = name;
  email = t.email;
  name = t.name;
}

announce-eq-ok :
    (env : Env) (e : Event) (name : String) (t : MemberNotify) (db : Db) {r : Unit {0} × Db}
    → env.mailer_wired ≡ true
    → announce env e name t db ≡ ok r
    → (r.1.events ≡ db.events) × (r.1.event_mails ≡ db.event_mails ++ mail_to e name t ∷ [])
announce-eq-ok env e name t db wired h = (ground arith, ground arith)

announce-events :
    (env : Env) (e : Event) (name : String) (t : MemberNotify) (db : Db) {r : Unit {0} × Db}
    → announce env e name t db ≡ ok r
    → r.1.events ≡ db.events
announce-events env e name t db h = ground arith

announce_all-events :
    (env : Env) (e : Event) (name : String) (ts : List MemberNotify) (db : Db) {r : Unit {0} × Db}
    → announce_all env e name ts db ≡ ok r
    → r.1.events ≡ db.events
announce_all-events env e name [] db h = ground arith
announce_all-events env e name (t ∷ ts) db h =
    let (v, e0, h0) = bind-eq-ok (announce env e name t db) _ h in
    announce_all-events env e name ts v.1 h0 ∙ announce-events env e name t db e0

append_twice :
    {A : Type 0} (xs : List A) (x : A) (ys : List A) → (xs ++ x ∷ []) ++ ys ≡ xs ++ x ∷ ys
append_twice [] x ys = refl
append_twice (z ∷ xs) x ys = ap (λ l. z ∷ l) (append_twice xs x ys)

append_none : {A : Type 0} (xs : List A) → xs ≡ xs ++ []
append_none [] = refl
append_none (z ∷ xs) = ap (λ l. z ∷ l) (append_none xs)

announce_all-mails :
    (env : Env) (e : Event) (name : String) (ts : List MemberNotify) (db : Db) {r : Unit {0} × Db}
    → env.mailer_wired ≡ true
    → announce_all env e name ts db ≡ ok r
    → r.1.event_mails ≡ db.event_mails ++ map (mail_to e name) ts
announce_all-mails env e name [] db {r = r} wired h =
    let same : r.1 ≡ db = ground arith in rw same (append_none db.event_mails)
announce_all-mails env e name (t ∷ ts) db wired h =
    let (v, e0, h0) = bind-eq-ok (announce env e name t db) _ h in
    let (rows, mails) = announce-eq-ok env e name t db wired e0 in
    announce_all-mails env e name ts v.1 wired h0
    ∙ ap (λ l. l ++ map (mail_to e name) ts) mails
    ∙ append_twice db.event_mails (mail_to e name t) (map (mail_to e name) ts)

-- What a successful `Publish` did: the event was a draft, its row is saved with its new status
-- only, and the members that `NotifyTargets` gives were read.
abbrev pub IsPublishing : Env → ℕ → Event → Event → List MemberNotify → String → Db → Type 0
unfolding notify_targets org_name
IsPublishing env org e published_e targets name db =
    (status_eq e.status draft ≡ true)
    × (published_e ≡ record e { status = published })
    × (notify_targets env org db ≡ ok (targets, db))
    × (org_name env org db ≡ ok (name, db))

saved_as : (db db' : Db) {e e' : Event} → e ≡ e' → Saves e' db db' → Saves e db db'
saved_as db db' same h = rw same h

told_as :
    (env : Env) {e e' : Event} (name : String) (ts : List MemberNotify) (db db' : Db)
    {w : Unit {0} × Db}
    → e ≡ e'
    → w ≡ (tt, db')
    → announce_all env e' name ts db ≡ ok w
    → announce_all env e name ts db ≡ ok (tt, db')
told_as env name ts db db' same store h = rw same (h ∙ ap ok store)

publish-steps :
    (env : Env) (actor : ℕ) (org_ref ref : String) (db : Db) {r : Event × Db}
    → publish env actor org_ref ref db ≡ ok r
    → (oe : ℕ × Event) × (targets : List MemberNotify) × (name : String) × (v : Unit {0} × Db)
      × (locate env org_ref ref db ≡ ok (oe, db))
      × IsPublishing env oe.0 oe.1 r.0 targets name db
      × Saves r.0 db v.1
      × (v.1.event_mails ≡ db.event_mails)
      × (announce_all env r.0 name targets v.1 ≡ ok (tt, r.1))
unfolding publish
publish-steps env actor org_ref ref db {r = r} h =
    let (oe, e0, h0) = read-eq-ok (locate env org_ref ref) _ db (locate-Reads env org_ref ref) h in
    let (was, h1) = guard-eq-ok (not (status_eq oe.1.status draft)) invalid_status _ db h0 in
    let e : Event = record oe.1 { status = published } in
    let (targets, e2, h2) =
      read-eq-ok (map_err passed_on (notify_targets env oe.0)) _ db
        (Reads-map_err passed_on (notify_targets env oe.0) (notify_targets-Reads env oe.0)) h1 in
    let (name, e3, h3) =
      read-eq-ok (map_err call_err (org_name env oe.0)) _ db
        (Reads-map_err call_err (org_name env oe.0) (org_name-Reads env oe.0)) h2 in
    let (v, e4, h4) = bind-eq-ok (save_status env oe.0 actor "event.published" e db) _ h3 in
    let (w, e5, h5) = bind-eq-ok (announce_all env e name targets v.1) _ h4 in
    let (rows, mails) = save_status-eq-ok env oe.0 actor "event.published" e db e4 in
    let answer : r.0 ≡ e = ground arith in
    let store : w ≡ (tt, r.1) = ground arith in
    (
      oe,
      targets,
      name,
      v,
      e0,
      (
        ground arith,
        answer,
        map_err-eq-ok passed_on (notify_targets env oe.0) db e2,
        map_err-eq-ok call_err (org_name env oe.0) db e3,
      ),
      saved_as db v.1 answer rows,
      mails,
      told_as env name targets v.1 r.1 answer store e5,
    )

pub publish-Apart :
    (env : Env) (actor : ℕ) (org_ref ref : String) (db : Db) {r : Event × Db}
    → publish env actor org_ref ref db ≡ ok r
    → Apart r.0.id db.events r.1.events
publish-Apart env actor org_ref ref db {r = r} h =
    let (oe, targets, name, v, e0, is, rows, mails, told) =
      publish-steps env actor org_ref ref db h in
    rw (announce_all-events env r.0 name targets v.1 told) (Saves-Apart r.0 db v.1 rows)

-- A successful `Publish`, with a mailer wired, was of a draft, found in the organization that the
-- request names; it saves that row with the status PUBLISHED and nothing else changed, and queues
-- one announcement for each member that `NotifyTargets` gives, in that order, after the mails that
-- were queued before.
pub publish-eq-ok :
    (env : Env) (actor : ℕ) (org_ref ref : String) (db : Db) {r : Event × Db}
    → env.mailer_wired ≡ true
    → publish env actor org_ref ref db ≡ ok r
    → (oe : ℕ × Event) × (targets : List MemberNotify) × (name : String) × (locate env org_ref ref
          db
        ≡ ok (oe, db))
      × IsPublishing env oe.0 oe.1 r.0 targets name db
      × Saves r.0 db r.1
      × (r.1.event_mails ≡ db.event_mails ++ map (mail_to r.0 name) targets)
publish-eq-ok env actor org_ref ref db {r = r} wired h =
    let (oe, targets, name, v, e0, is, rows, mails, told) =
      publish-steps env actor org_ref ref db h in
    (
      oe,
      targets,
      name,
      e0,
      is,
      announce_all-events env r.0 name targets v.1 told ∙ rows,
      announce_all-mails env r.0 name targets v.1 wired told
          ∙ ap (λ l. l ++ map (mail_to r.0 name) targets) mails,
    )
