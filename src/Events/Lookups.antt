-- ===== src/Events/Lookups.antt =====
-- internal/event/service/event_service.go: what other domains ask of the event domain.
use rallya.Common.{ℕ, String, Tx, ◌>>=◌, map_err, pure}
use rallya.Store.{Db, Env}
use rallya.Events.Types.{EventError, event_err}
use rallya.Events.Rows.{get_event_by_id, get_event_by_slug}
use rallya.Events.Create.{resolve_event}

-- `OrgOf`
unfoldable pub org_of_event : Env → ℕ → Tx Db EventError ℕ
unfolding get_event_by_id
org_of_event env id = do e ← map_err event_err (get_event_by_id env id); pure e.org_id

-- `EventTitle`
unfoldable pub title_of_event : Env → ℕ → Tx Db EventError String
unfolding get_event_by_id
title_of_event env id = do e ← map_err event_err (get_event_by_id env id); pure e.title

-- `ResolveEventID`
unfoldable pub resolve_event_id : Env → ℕ → String → Tx Db EventError ℕ
unfolding resolve_event get_event_by_id get_event_by_slug
resolve_event_id env org_id ref = do e ← resolve_event env org_id ref; pure e.id
