-- ===== src/Tests/World.antt =====
-- A shop with one event, one ticket type, one unpaid order, one door record and one subscription.
use rallya.Common.{
  ℕ, ◌+◌, ◌-◌, Bytes, true, false, ◌==◌, Option, none, some, [], ◌∷◌, length, ok, err, Result,
  str_eq,
}
use rallya.Common.Int.{pos}
use rallya.Model.Ticket.{TicketType, active}
use rallya.Model.Order.{Order, pending_payment}
use rallya.Model.Attendee.{Attendee, registered}
use rallya.Model.Subscription.{OrgSubscription, SubStatus, pro}
use rallya.Model.Checkin.{invalid_code, qr}
use rallya.Store.{Db, Env, EventInfo, User}
use rallya.Checkin.Scan.{ScanResult}

abbrev pub fair : EventInfo
fair = record { event_id = 3; published = true; capacity = some 100 }

abbrev pub parse_digit : Bytes → Option ℕ
parse_digit (c ∷ []) = some (c - 48)
parse_digit _ = none

abbrev pub account : ℕ → User
account id = record {
  id = id;
  is_active = true;
  email_verified = true;
  email = "ann@example.org";
  first_name = some "Ann";
}

-- Requests whose database calls all work, at a given time, with a given next identifier.
abbrev pub world : ℕ → ℕ → Env
world now new_id = record {
  now = now;
  fault = λ c. false;
  audited = true;
  new_id = new_id;
  unit_id = λ unit. 20 + unit;
  token = λ unit. some (84 ∷ (48 + unit) ∷ []);
  hash_token = λ raw. 35 ∷ raw;
  get_event = λ caller org event. some fair;
  get_public_event = λ id. some fair;
  resolve_event = λ org event. some 3;
  event_title = λ id. some "Fair";
  org_of = λ id. some 9;
  can_manage = λ user org. user == 6;
  get_user = λ id. some (account id);
  get_user_by_email = λ email. some (account 8);
  parse_uuid = parse_digit;
  counter_wired = true;
  minter_wired = true;
  mailer_wired = true;
  secret_set = true;
  mac = λ msg. length msg ∷ 171 ∷ [];
  uuid_text = λ id. (48 + id) ∷ [];
  guard_wired = true;
  plans_wired = true;
  billing_info = λ id. none;
  to_upper = λ s. s;
  to_lower = λ s. s;
  equal_fold = str_eq;
  invite_token = some (84 ∷ []);
  slug_token = some (97 ∷ 49 ∷ 98 ∷ 50 ∷ 99 ∷ 51 ∷ []);
  cache_wired = true;
  storage_wired = true;
  save_cover = λ org event contents ext. some "cover";
  save_image = λ org event contents ext. some (record {
    url = "image";
    public_id = "p";
    format = "png";
    bytes = pos 3;
    width = pos 1;
    height = pos 1;
  });
}

abbrev pub seat : TicketType
seat = record {
  id = 7;
  event_id = 3;
  name = "Seat";
  description = none;
  price_cents = 500;
  currency = "USD";
  quantity_total = 10;
  quantity_sold = 4;
  max_per_order = some 4;
  sale_starts_at = none;
  sale_ends_at = none;
  status = active;
  deleted = false;
}

abbrev pub unpaid : ℕ → ℕ → Order
unpaid id expires = record {
  id = id;
  user_id = 5;
  event_id = 3;
  ticket_type_id = 7;
  quantity = 2;
  price_cents = 500;
  currency = "USD";
  status = pending_payment;
  stripe_session_id = none;
  stripe_payment_intent_id = none;
  paid_at = none;
  idempotency_key = none;
  expires_at = some expires;
}

abbrev pub ann : Attendee
ann = record {
  id = 8;
  order_id = some 1;
  unit_index = 0;
  event_id = 3;
  user_id = some 5;
  email = "ann@example.org";
  name = some "Ann";
  token_hash = 35 ∷ 84 ∷ 48 ∷ [];
  status = registered;
  checked_in_at = none;
}

abbrev pub plan_row : OrgSubscription
plan_row = record {
  id = 1;
  org_id = 9;
  plan = pro;
  status = SubStatus.active;
  stripe_customer_id = "cus";
  stripe_subscription_id = "sub";
  current_period_end = none;
  cancel_at_period_end = false;
  grace_until = none;
}

-- Order 1 has lapsed at time 1000, order 2 has not.
abbrev pub shop : Db
shop = record {
  types = seat ∷ [];
  orders = unpaid 1 900 ∷ unpaid 2 1900 ∷ [];
  attendees = ann ∷ [];
  checkin_logs = [];
  kits = [];
  collections = [];
  subscriptions = plan_row ∷ [];
  audits = [];
  emails = [];
  orgs = [];
  memberships = [];
  invites = [];
  role_defs = [];
  custom_roles = [];
  invite_mails = [];
  events = [];
  event_mails = [];
  event_images = [];
}

-- The store after a method that succeeds.
abbrev pub after : {E A : Type 0} → Result E (A × Db) → Db
after (ok r) = r.1
after (err e) = shop

abbrev pub unscanned : ScanResult
unscanned = record { outcome = invalid_code; method = qr; attendee_id = none; checked_in_at = none }

-- The answer of a scan that does not fail.
abbrev pub result : {E : Type 0} → Result E (ScanResult × Db) → ScanResult
result (ok r) = r.0
result (err e) = unscanned
