-- ===== src/Tests/Manager.antt =====
-- proxy/manager.go: a run in which one goroutine registers the first backend of a service.

use tsserve.Base.{
  ℕ, zero, suc, ◌<◌, ◌≡◌, ◌≢◌, ◌↔◌, refl, inl, inr, true, false, not, none, some, [], ◌∷◌, lookup,
  length, eqb, arith,
}
use tsserve.Base.Int.{pos}
use tsserve.Proxy.Backend.{Backend, Origin}
use tsserve.Proxy.State.{ServiceDef, Gauges}
use tsserve.Proxy.Manager.{register_pass, advertise_locked, release_locked}
use tsserve.Proxy.Manager.Invariant.{has_member}
use tsserve.Proxy.Manager.Gauges.{ready_count}
use tsserve.Proxy.Goroutine.{
  System, Move, proceed, fail, call_register, panics, moves, blocked, advance, shut, is_open,
  serve_exits, serve_returns,
}
use tsserve.Proxy.Goroutine.Stage.{flight}
use tsserve.Proxy.Goroutine.Reach.{initial, Reach}
use tsserve.Proxy.Goroutine.Promises.{
  never_panics, one_listener, serve_exclusive, one_teardown, recorded_iff_member,
  serving_has_backend, active_gauge_counts, backends_gauge_shows, pool_size,
}
use tsserve.Proxy.Calls.{snapshot}
use tsserve.Proxy.Calls.Laws.{snapshot_lem, shown, ShowsRecord, record_of}

abbrev nowhere : Origin
nowhere = record { account = ""; cluster = ""; region = "" }

abbrev web : ServiceDef
web = record {
  service = "svc:web";
  port = 8080;
  network = "bridge";
  scheme = "http";
  caps = [];
  origin = nowhere;
}

abbrev first : Backend
first = record {
  key = "c1";
  addr = "172.17.0.2:8080";
  registered_at = 1;
  origin = nowhere;
  invoker = none;
  target = "";
}

next : System → Move → System
next s (moves t) = t
next s blocked = s
next s panics = s

abbrev started : System
started = initial true

called : System
unfolding next advance initial
called = next started (advance 0 (call_register "c1" web first) started)

claimed : System
unfolding next advance initial register_pass called
claimed = next called (advance 0 proceed called)

in_call : System
unfolding next advance initial register_pass called claimed
in_call = next claimed (advance 0 proceed claimed)

opened : System
unfolding next advance initial register_pass called claimed in_call
opened = next in_call (advance 0 proceed in_call)

served : System
unfolding next advance initial register_pass called claimed in_call opened advertise_locked
served = next opened (advance 0 proceed opened)

reach_called : Reach true called
unfolding called next advance initial
reach_called =
    Reach.step 0 (call_register "c1" web first) called (Reach.start started refl) (refl, λ j h. cc)
      refl

reach_in_call : Reach true in_call
unfolding called next advance initial register_pass claimed in_call
reach_in_call =
    Reach.step 0 proceed in_call (Reach.step 0 proceed claimed reach_called tt refl) tt refl

reach_served : Reach true served
unfolding called next advance initial register_pass claimed in_call opened served advertise_locked
reach_served =
    Reach.step 0 proceed served (Reach.step 0 proceed opened reach_in_call tt refl) tt refl

never_panics_example : advance 1 (call_register "c2" web first) served ≢ panics
never_panics_example = never_panics reach_served 1 (call_register "c2" web first)

-- The listener fails to open, and the backend is registered again.
refused : System
unfolding next advance initial register_pass release_locked called claimed in_call
refused = next in_call (advance 0 (fail "no route") in_call)

reach_refused : Reach true refused
unfolding next advance initial register_pass release_locked called claimed in_call refused
reach_refused = Reach.step 0 (fail "no route") refused reach_in_call tt refl

released : System
unfolding next advance initial register_pass release_locked called claimed in_call refused
released = next refused (advance 0 proceed refused)

reach_released : Reach true released
unfolding next advance initial register_pass release_locked called claimed in_call refused released
reach_released = Reach.step 0 proceed released reach_refused tt refl

quiet : (j : ℕ) → flight (released.goroutines j) ≡ none
unfolding next advance initial register_pass release_locked called claimed in_call refused released
quiet zero = refl
quiet (suc j) = let apart : eqb 0 (suc j) ≡ false = ground arith in rw (flight, apart) refl

again : System
unfolding next advance initial register_pass release_locked called claimed in_call refused released
again = next released (advance 0 (call_register "c1" web first) released)

reach_again : Reach true again
unfolding next advance initial register_pass release_locked called claimed in_call refused released
    again
reach_again =
    Reach.step 0 (call_register "c1" web first) again reach_released (refl, λ j h. cc (quiet j, h))
      refl

reclaimed : System
unfolding next advance initial register_pass release_locked called claimed in_call refused released
    again
reclaimed = next again (advance 0 proceed again)

reach_reclaimed : Reach true reclaimed
unfolding next advance initial register_pass release_locked called claimed in_call refused released
    again reclaimed
reach_reclaimed = Reach.step 0 proceed reclaimed reach_again tt refl

one_listener_example : reclaimed.listener 0 ≡ shut
unfolding next advance initial register_pass release_locked called claimed in_call refused released
    again reclaimed
one_listener_example =
    one_listener reach_reclaimed 0 1 "c1" first (inl refl) 0 (omega arith) (λ e. omega (arith, e))
      refl

serve_exclusive_example : zero ≡ zero
unfolding next advance initial register_pass called claimed in_call
serve_exclusive_example = serve_exclusive reach_in_call 0 0 refl refl

one_teardown_example : zero ≡ zero
unfolding next advance initial register_pass called claimed in_call
one_teardown_example = one_teardown reach_in_call 0 0 0 refl refl

recorded_iff_member_example :
    (lookup "c1" served.manager.by_key ≡ some "svc:web")
    ↔ (has_member served.manager "svc:web" "c1" ≡ true)
recorded_iff_member_example = recorded_iff_member reach_served "c1" "svc:web"

serving_has_backend_example :
    (0 < length (served.manager.records 0).pool.members)
    × (is_open served 0 ≡ not (served.exited 0))
unfolding next advance initial register_pass called claimed in_call opened served advertise_locked
    lookup
serving_has_backend_example = serving_has_backend reach_served "svc:web" 0 refl refl

-- The Serve of the record returns with an error: the service still serves, and its listener is closed.
left_alone :
    (is_open served 0 ≡ true) × (is_open (next served (advance 0 (serve_exits 0) served)) 0 ≡ false)
unfolding next advance initial register_pass called claimed in_call opened served advertise_locked
    is_open serve_returns
left_alone = (refl, refl)

abbrev gauges : Gauges
gauges = record { active = pos 1; backends = ("svc:web", 1) ∷ [] }

active_gauge_counts_example : pos 1 ≡ pos (ready_count served.manager)
unfolding next advance initial register_pass called claimed in_call opened served advertise_locked
active_gauge_counts_example = active_gauge_counts {g = gauges} reach_served refl

backends_gauge_shows_example : lookup "svc:web" gauges.backends ≡ pool_size served.manager "svc:web"
unfolding next advance initial register_pass called claimed in_call opened served advertise_locked
    lookup
backends_gauge_shows_example =
    backends_gauge_shows {g = gauges} reach_served refl "svc:web" (inr refl)

snapshot_lem_example :
    ShowsRecord "svc:web"
      (shown "svc:web" (snapshot served.manager))
      (record_of served.manager "svc:web")
snapshot_lem_example = snapshot_lem reach_served "svc:web"
