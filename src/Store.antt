-- ===== src/Store.antt =====
-- One request's view of the world. `Db` is the Postgres database that all repositories share; `Env`
-- is what a request reads of the code outside this development: the clock, new identifiers, the
-- other domains behind their Go interfaces, and which database calls fail.
use rallya.Common.{
  ℕ, String, Bytes, Bool, ◌&&◌, Option, List, [], ◌∷◌, ◌++◌, find, Tx, ◌>>=◌, ◌>>◌, raise_if,
  or_raise, gets, modify, if◌then◌else◌,
}
use rallya.Model.Ticket.{TicketType}
use rallya.Model.Order.{Order}
use rallya.Model.Attendee.{Attendee}
use rallya.Model.Checkin.{CheckinLog}
use rallya.Model.Kit.{Kit, KitCollection}
use rallya.Common.Int.{ℤ}
use rallya.Model.Event.{Event, EventImage}
use rallya.Model.Audit.{Entry}
use rallya.Model.Organization.{
  Organization, Membership, Invite, RoleDefinition, MemberCustomRole, MemberRole,
}
use rallya.Model.Subscription.{OrgSubscription, SubInfo}

-- internal/notification/jobs, `SendOrderConfirmationEmailArgs`
pub record Email : Type 0 where
  pub order_id : ℕ
  pub email : String
  pub name : String
  pub event_title : String
  pub items : List Bytes  -- QR payloads

-- `SendOrgInviteEmailArgs`; the link holds the raw token.
pub record InviteMail : Type 0 where
  pub org_id : ℕ
  pub org_name : String
  pub org_slug : Bytes
  pub email : String
  pub name : String
  pub role : MemberRole
  pub inviter_name : String
  pub raw_token : Bytes

-- `SendEventPublishedEmailArgs`, less its link, which holds the event's id.
pub record EventMail : Type 0 where
  pub event_id : ℕ
  pub event_title : String
  pub org_name : String
  pub email : String
  pub name : String

-- internal/event/cover/cloudinary.go, `StoredImage`
pub record StoredImage : Type 0 where
  pub url : String
  pub public_id : String
  pub format : String
  pub bytes : ℤ
  pub width : ℤ
  pub height : ℤ

pub record Db : Type 0 where
  pub types : List TicketType
  pub orders : List Order
  pub attendees : List Attendee
  pub checkin_logs : List CheckinLog
  pub kits : List Kit
  pub collections : List KitCollection
  pub subscriptions : List OrgSubscription
  pub audits : List Entry
  pub emails : List Email
  pub orgs : List Organization
  pub memberships : List Membership
  pub invites : List Invite
  pub role_defs : List RoleDefinition
  pub custom_roles : List MemberCustomRole
  pub invite_mails : List InviteMail
  pub events : List Event
  pub event_mails : List EventMail
  pub event_images : List EventImage

-- The database calls of the services, as far as they can fail on their own.
pub data Call : Type 0 where
  get_type lock_type add_sold create_type update_type delete_type allocated_total : Call
  get_order get_order_by_idempotency create_order update_order expired_pending : Call
  exists_for_order create_attendee : ℕ → Call  -- of one unit
  get_attendee update_attendee count_by_status : Call
  get_for_update cancel_for_order insert_log : Call
  get_kit create_kit update_kit delete_kit list_kits count_active count_collected counts_by_kit :
      Call
  find_by_idempotency create_collection get_collection update_collection has_active : Call
  list_collections : Call
  create_org get_org get_org_by_slug update_org delete_org : Call
  create_membership get_membership count_members list_memberships : Call
  update_member_role set_notify_events delete_membership count_owners : Call
  create_invite get_invite get_invite_by_hash pending_invite list_invites consume_invite : Call
  create_role_def get_role_def list_role_defs update_role_def delete_role_def : Call
  count_role_defs assign_custom_role unassign_custom_role list_user_custom_roles : Call
  count_role_assignments count_role_assignees : Call
  create_event get_event_by_id get_event_by_slug update_event delete_event count_events : Call
  create_image list_images : Call
  cache_get cache_set cache_del : Call  -- of the cache, not the database
  get_by_org get_by_subscription_id create_subscription save_subscription enqueue : Call
  emit : String → Call

-- The errors of a repository: gorm.ErrRecordNotFound, a unique violation, and any other.
pub data DbError : Type 0 where
  not_found unique_violation failed : DbError

-- internal/ticketing/service/eventadapter.go, `EventInfo`.
pub record EventInfo : Type 0 where
  pub event_id : ℕ
  pub published : Bool
  pub capacity : Option ℕ

-- The fields of a user that the other domains read.
pub record User : Type 0 where
  pub id : ℕ
  pub is_active : Bool
  pub email_verified : Bool
  pub email : String
  pub first_name : Option String

pub record Env : Type 0 where
  pub now : ℕ
  pub fault : Call → Bool
  pub audited : Bool  -- an audit emitter is wired
  pub new_id : ℕ  -- the next uuid.New()
  pub unit_id : ℕ → ℕ  -- uuid.New() for each minted unit
  pub token : ℕ → Option Bytes  -- GenerateToken for each minted unit
  pub hash_token : Bytes → Bytes  -- HashToken: SHA-256 in hex
  pub get_event : Option ℕ → String → String → Option EventInfo
  pub get_public_event : ℕ → Option EventInfo
  pub resolve_event : ℕ → String → Option ℕ
  pub event_title : ℕ → Option String
  pub org_of : ℕ → Option ℕ
  pub can_manage : ℕ → ℕ → Bool
  pub get_user : ℕ → Option User
  pub get_user_by_email : String → Option User
  pub parse_uuid : Bytes → Option ℕ  -- uuid.Parse
  pub counter_wired : Bool  -- an AttendeeCounter is set
  pub minter_wired : Bool  -- an AttendeeMinter is set
  pub mailer_wired : Bool  -- an Enqueuer is set
  pub secret_set : Bool  -- the QR secret is not empty
  pub mac : Bytes → Bytes  -- HMAC-SHA256 under the QR secret
  pub uuid_text : ℕ → Bytes  -- uuid.UUID.String
  pub guard_wired : Bool  -- a CollectionGuard is set
  pub plans_wired : Bool  -- an EntitlementProvider is set
  pub billing_info : String → Option SubInfo  -- GetSubscription of the wired provider, if any
  pub to_upper : String → String  -- strings.ToUpper, over the Unicode tables
  pub to_lower : String → String
  pub equal_fold : String → String → Bool  -- strings.EqualFold
  pub invite_token : Option Bytes  -- GenerateRawToken(32)
  pub slug_token : Option Bytes  -- GenerateRawToken(3)
  pub cache_wired : Bool  -- a DetailCache is set
  pub storage_wired : Bool  -- a CoverStorage is set
  pub save_cover : ℕ → ℕ → Bytes → String → Option String  -- its Save, with the data and extension
  pub save_image : ℕ → ℕ → Bytes → String → Option StoredImage  -- its SaveImage

-- The failure of a database call.
abbrev pub call : Env → Call → Tx Db DbError (Unit {0})
call env c = raise_if (env.fault c) failed

-- `First`
abbrev pub first : {A : Type 0} → Env → Call → (A → Bool) → (Db → List A) → Tx Db DbError A
first env c p table = do call env c; rows ← gets table; or_raise (find p rows) not_found

-- A service's `emit`: nil-safe, and inside the caller's transaction.
abbrev pub emit_tx : {E : Type 0} → Env → E → Entry → Tx Db E (Unit {0})
emit_tx env internal e = do
  raise_if (env.audited && env.fault (emit e.action)) internal
  modify (λ db. record db { audits = if env.audited then db.audits ++ e ∷ [] else db.audits })
