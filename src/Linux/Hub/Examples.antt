-- ===== src/Linux/Hub/Examples.antt =====
-- A hub with three connections, of which the first is broken.
use ipmb.Prelude.{ℕ, ◌≡◌, refl, true, some, [], ◌∷◌}
use ipmb.Errors.{Error, err}
use ipmb.Linux.Hub.{empty, Event, IoHub, handle_event, handle_events, hub_recv}

abbrev hub : IoHub
hub = record { bus_rx = true; local_list = 5 ∷ 6 ∷ 7 ∷ []; listener = some 4; waker = 3 }

abbrev event : ℕ → Event
event n = record { raw = n; accepted = some 8; arrived = err Error.disconnect }

-- The waker and the listener are handled, then the broken connection gives its place to the last.
hub_recv_runs :
    hub_recv hub (record { from_bus = empty; events = event 3 ∷ event 4 ∷ event 5 ∷ [] } ∷ [])
    ≡ (some (err Error.disconnect), record hub { local_list = 8 ∷ 6 ∷ 7 ∷ [] })
unfolding hub_recv handle_events handle_event
hub_recv_runs = refl
