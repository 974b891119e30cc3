-- ===== src/Subscription/Failures.antt =====
-- internal/subscription/service/webhook.go: `onInvoiceFailed`, once and again.
use rallya.Common.{
  ℕ, ◌+◌, ◌*◌, ◌≡◌, refl, sym, ap, ◌∙◌, String, true, false, some, none, List, [], ◌∷◌, arith, ok,
  find, update_first, is_empty, Distinct, All-find, Option-cases, Bool-cases, inl, inr, ltb, ◌==◌,
}
use rallya.Model.Subscription.{OrgSubscription, is_past_due}
use rallya.Store.{Db, Env}
use rallya.Subscription.Entitlements.{has_subscription}
use rallya.Subscription.Webhook.{on_invoice_failed, past_due_grace_days, day, parked}
use rallya.Subscription.Grace.{is_granting}

abbrev pub sub_key : OrgSubscription → ℕ
sub_key s = s.id

-- Subscription rows have a primary key.
abbrev pub UniqueSubscriptions : Db → Type 0
UniqueSubscriptions db = Distinct sub_key db.subscriptions

abbrev replaced : OrgSubscription → List OrgSubscription → List OrgSubscription
replaced s rows = update_first (λ u. u.id == s.id) (λ _. s) rows

-- What a failed payment that succeeds as a request has written.
on_invoice_failed-eq-ok :
    (env : Env) (id : String) (db : Db) {s : OrgSubscription} {r : Unit {0} × Db}
    → is_empty id ≡ false
    → find (has_subscription id) db.subscriptions ≡ some s
    → on_invoice_failed env (some id) db ≡ ok r
    → r.1.subscriptions ≡ replaced (parked env s) db.subscriptions
unfolding on_invoice_failed
on_invoice_failed-eq-ok env id db {s = s} given found h = ground arith

on_invoice_failed-unknown :
    (env : Env) (id : String) (db : Db) {r : Unit {0} × Db}
    → find (has_subscription id) db.subscriptions ≡ none
    → on_invoice_failed env (some id) db ≡ ok r
    → r.1 ≡ db
unfolding on_invoice_failed
on_invoice_failed-unknown env id db found h = ground arith

find-replaced :
    (id : String) (p : OrgSubscription) {s : OrgSubscription} (rows : List OrgSubscription)
    → p.id ≡ s.id
    → has_subscription id p ≡ true
    → Distinct sub_key rows
    → find (has_subscription id) rows ≡ some s
    → find (has_subscription id) (replaced p rows) ≡ some p
find-replaced id p {s = s} [] own is distinct h = cc
find-replaced id p {s = s} (x ∷ rows) own is distinct h =
    elim (Bool-cases (has_subscription id x)) [
      | inl here ↦ ground arith
      | inr further ↦
          let apart : (s.id == x.id) ≡ false =
            All-find (λ y. (y.id == x.id) ≡ false) (has_subscription id) {a = s} rows distinct.0
              (ground arith) in
          let rest = find-replaced id p {s = s} rows own is distinct.1 (ground arith) in
          ground (arith, rest)
    ]

replaced-again :
    (p : OrgSubscription) (rows : List OrgSubscription)
    → replaced p (replaced p rows) ≡ replaced p rows
replaced-again p [] = refl
replaced-again p (x ∷ rows) = ground (arith, replaced-again p rows)

find-has :
    (id : String) {s : OrgSubscription} (rows : List OrgSubscription)
    → find (has_subscription id) rows ≡ some s
    → has_subscription id s ≡ true
find-has id {s = s} [] h = cc
find-has id {s = s} (x ∷ rows) h = elim (Bool-cases (has_subscription id x)) [
  | inl here ↦ ground arith
  | inr further ↦ find-has id {s = s} rows (ground arith)
]

-- The first failed payment of a subscription gives its row seven days: at any later time the row
-- grants its unchanged plan exactly if that time is before then. Row identifiers are distinct.
pub on_invoice_failed-grace :
    (env : Env) (id : String) (later : ℕ) (db : Db) {s : OrgSubscription} {r : Unit {0} × Db}
    → UniqueSubscriptions db
    → is_empty id ≡ false
    → find (has_subscription id) db.subscriptions ≡ some s
    → is_past_due s.status ≡ false
    → on_invoice_failed env (some id) db ≡ ok r
    → (t : OrgSubscription) × (find (has_subscription id) r.1.subscriptions ≡ some t)
      × (t.plan ≡ s.plan)
      × (is_granting later t ≡ ltb later (env.now + past_due_grace_days * day))
on_invoice_failed-grace env id later db {s = s} unique given found fresh h = (
  parked env s,
  ap (find (has_subscription id)) (on_invoice_failed-eq-ok env id db {s = s} given found h)
      ∙ find-replaced id (parked env s) {s = s} db.subscriptions refl
          (find-has id {s = s} db.subscriptions found) unique found,
  refl,
  rw fresh refl,
)

-- A payment that fails again changes no subscription row, so it never moves the end of the grace.
-- Row identifiers are distinct.
pub on_invoice_failed_again :
    (env env' : Env) (id : String) (db : Db) {r r' : Unit {0} × Db}
    → UniqueSubscriptions db
    → is_empty id ≡ false
    → on_invoice_failed env (some id) db ≡ ok r
    → on_invoice_failed env' (some id) r.1 ≡ ok r'
    → r'.1.subscriptions ≡ r.1.subscriptions
on_invoice_failed_again env env' id db {r = r} {r' = r'} unique given h h' =
    elim (Option-cases (find (has_subscription id) db.subscriptions)) [
      | inl missing ↦
          let same = on_invoice_failed-unknown env id db missing h in
          ap (λ x. x.subscriptions)
            (on_invoice_failed-unknown env' id r.1
              (ap (λ x. find (has_subscription id) x.subscriptions) same ∙ missing) h')
      | inr (s, found) ↦
          let wrote = on_invoice_failed-eq-ok env id db {s = s} given found h in
          let now : find (has_subscription id) r.1.subscriptions ≡ some (parked env s) =
            ap (find (has_subscription id)) wrote
            ∙ find-replaced id (parked env s) {s = s} db.subscriptions refl
                (find-has id {s = s} db.subscriptions found) unique found in
          on_invoice_failed-eq-ok env' id r.1 {s = parked env s} given now h'
          ∙ ap (replaced (parked env s)) wrote
          ∙ replaced-again (parked env s) db.subscriptions
          ∙ sym wrote
    ]
