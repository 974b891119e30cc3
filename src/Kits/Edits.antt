-- ===== src/Kits/Edits.antt =====
-- internal/kit/service/kit_service.go: `UpdateKit`, `DeleteKit` and `ListKits` against the handouts.
use rallya.Common.{
  ℕ, ◌+◌, ◌≡◌, String, false, not, List, [], ◌∷◌, arith, ok, filter, count, ltb, ◌==◌, All, All-map,
  All-filter, All-of_count, Distinct-filter, count-filter-le, map_err, map_err-eq-ok, read-eq-ok,
  guard-eq-ok, bind-eq-ok, Reads-map_err,
}
use rallya.Model.Kit.{Kit, KitCollection, CollectionStatus, collected, pending}
use rallya.Store.{Db, Env}
use rallya.Kits.Types.{call_err, kit_err, kit_not_found, kit_has_collections}
use rallya.Kits.Rows.{has_id, is_live, tallied, get_kit_row, count_active, delete_kit_row}
use rallya.Kits.Manage.{resolve_refs, delete_kit, kit_entry, with_tally}
use rallya.Kits.Steps.{
  resolve_refs-Reads, get_kit_row-Reads, count_active-Reads, count_active-counted, emit_tx-eq-ok,
}
use rallya.Kits.Covered.{Covered, IsCovered}

delete_kit_row-eq-ok :
    (env : Env) (id : ℕ) (db : Db) {r : Unit {0} × Db}
    → delete_kit_row env id db ≡ ok r
    → (r.1.kits ≡ filter (λ k. not (has_id id k)) db.kits)
      × (r.1.collections ≡ filter (λ c. not (c.kit_id == id)) db.collections)
unfolding delete_kit_row
delete_kit_row-eq-ok env id db h = (ground arith, ground arith)

-- A kit that is deleted had no handout that is not voided; its row and its voided handouts are
-- gone, and nothing else is.
pub delete_kit-eq-ok :
    (env : Env) (org : ℕ) (event_ref kit_ref : String) (staff : ℕ) (db : Db) {r : Unit {0} × Db}
    → delete_kit env org event_ref kit_ref staff db ≡ ok r
    → (id : ℕ) × All (λ c. is_live id c ≡ false) db.collections
      × (r.1.kits ≡ filter (λ k. not (has_id id k)) db.kits)
      × (r.1.collections ≡ filter (λ c. not (c.kit_id == id)) db.collections)
unfolding delete_kit
delete_kit-eq-ok env org event_ref kit_ref staff db {r = r} h =
    let (refs, e0, h0) =
      read-eq-ok (resolve_refs env org event_ref kit_ref) _ db
        (resolve_refs-Reads env org event_ref kit_ref) h in
    let (k, e1, h1) =
      read-eq-ok (map_err kit_err (get_kit_row env refs.1)) _ db
        (Reads-map_err kit_err (get_kit_row env refs.1) (get_kit_row-Reads env refs.1)) h0 in
    let (mine, h2) = guard-eq-ok (not (k.event_id == refs.0)) kit_not_found _ db h1 in
    let (n, e3, h3) =
      read-eq-ok (map_err call_err (count_active env refs.1)) _ db
        (Reads-map_err call_err (count_active env refs.1) (count_active-Reads env refs.1)) h2 in
    let (vacant, h4) = guard-eq-ok (ltb 0 n) kit_has_collections _ db h3 in
    let (v, e5, h5) = bind-eq-ok (map_err call_err (delete_kit_row env refs.1) db) _ h4 in
    let tally =
      count_active-counted env refs.1 db (map_err-eq-ok call_err (count_active env refs.1) db e3) in
    let (kits, collections) =
      delete_kit_row-eq-ok env refs.1 db
        (map_err-eq-ok call_err (delete_kit_row env refs.1) db e5) in
    let (kits', collections', people) =
      emit_tx-eq-ok env (kit_entry org staff "kit.deleted" "kit" refs.1) v.1 h5 in
    (refs.1, All-of_count (is_live refs.1) db.collections (ground arith), cc, cc)

-- Deleting a kit keeps every kit within its quantity.
pub delete_kit-Covered :
    (env : Env) (org : ℕ) (event_ref kit_ref : String) (staff : ℕ) (db : Db) {r : Unit {0} × Db}
    → delete_kit env org event_ref kit_ref staff db ≡ ok r
    → Covered db
    → Covered r.1
delete_kit-Covered env org event_ref kit_ref staff db h (keys, fits) =
    let (id, vacant, kits, collections) = delete_kit-eq-ok env org event_ref kit_ref staff db h in
    rw (kits, collections)
      (
        Distinct-filter (λ (k : Kit). k.id) (λ k. not (has_id id k)) db.kits keys,
        All-filter (IsCovered (filter (λ c. not (c.kit_id == id)) db.collections))
            (λ k. not (has_id id k)) db.kits
            (All-map (IsCovered db.collections)
              (IsCovered (filter (λ c. not (c.kit_id == id)) db.collections)) db.kits
              (λ k within. omega (
                arith,
                within,
                count-filter-le (is_live k.id) (λ c. not (c.kit_id == id)) db.collections,
              ))
              fits),
      )

-- What the database tallies.
abbrev pub counts_of : ℕ → List KitCollection → ℕ → CollectionStatus → ℕ
counts_of event_id cs kit_id st = count (tallied event_id kit_id st) cs

live_tally :
    (event_id kit_id : ℕ) (cs : List KitCollection)
    → All (λ c. c.kit_id ≡ kit_id → c.event_id ≡ event_id) cs
    → counts_of event_id cs kit_id pending + counts_of event_id cs kit_id collected
      ≡ count (is_live kit_id) cs
live_tally event_id kit_id [] h = omega arith
live_tally event_id kit_id (c ∷ cs) (own, h) = ground (arith, own, live_tally event_id kit_id cs h)

-- The tallies of a kit whose handouts all name its event and fit its quantity: what is pending,
-- collected and left adds up to the quantity.
pub with_tally-total :
    (event_id : ℕ) (k : Kit) (cs : List KitCollection)
    → All (λ c. c.kit_id ≡ k.id → c.event_id ≡ event_id) cs
    → IsCovered cs k
    → let view = with_tally (counts_of event_id cs) k in
      view.pending + view.collected + view.remaining ≡ k.quantity_total
with_tally-total event_id k cs own fits = omega (arith, fits, live_tally event_id k.id cs own)
