-- ===== src/Proxy/Manager.antt =====
-- proxy/manager.go: the manager. Each function is one critical section under `Manager.mu`, or the code
-- between two of them; `none` is a run-time panic. A section returns what the goroutine does next.
pub mod Invariant
pub mod Gauges
use tsserve.Base.{
  ℕ, ◌+◌, String, Bool, true, false, ◌&&◌, ◌||◌, not, Option, none, some, List, [], ◌∷◌, Map,
  lookup, put, delete, has, Result, ok, err, ◌==◌, eqb, if◌then◌else◌, ltb,
}
use tsserve.Base.Text.{contains_codes, lower_codes}
use tsserve.Proxy.Caps.{same_caps, render_caps}
use tsserve.Proxy.Backend.{Backend, FunctionInvoker, Origin, scheme_lambda, invoker_target}
use tsserve.Proxy.Pool.{BackendPool, new_backend_pool, add, remove}
use tsserve.Proxy.State.{
  ServiceDef, ConflictError, Chan, opened, close_chan, AdvertisedService, Manager, is_none, serving,
  set_record, set_pool_size, service_advertised, service_withdrawn, all_services_withdrawn,
}

pub data RegisterError : Type 0 where
  shutting_down : RegisterError
  no_invoker : String → RegisterError
  conflict : ConflictError → RegisterError
  fatal : String → RegisterError
  listen_failed : String → RegisterError

-- Which of a record's channels to wait on.
pub data Wait : Type 0 where
  on_withdrawing on_advertised : Wait

unfoldable pub transition : AdvertisedService → Option Wait
transition r =
    if not (is_none r.withdrawing)
    then some on_withdrawing
    else if not r.ready
    then some on_advertised
    else none

unfoldable pub conflict_with : AdvertisedService → String → ServiceDef → Option ConflictError
unfolding same_caps render_caps
conflict_with r key def =
    if not (def.scheme == r.scheme)
    then some (record {
      service = r.name;
      key = key;
      field = "scheme";
      advertised = r.scheme;
      offered = def.scheme;
    })
    else if not (same_caps r.caps def.caps)
    then some (record {
      service = r.name;
      key = key;
      field = "caps";
      advertised = render_caps r.caps;
      offered = render_caps def.caps;
    })
    else none

-- What one pass of register's loop comes to.
pub data Attempt : Type 0 where
  refused : RegisterError → Attempt
  -- a nil return
  member : Attempt
  -- the caller has claimed the name by this record, and advertises it
  claimed : ℕ → Attempt
  -- the caller waits on a channel of this record, and passes again
  waits : ℕ → Wait → Attempt

unfoldable pub claim : ServiceDef → Manager → Manager × Attempt
unfolding put new_backend_pool
claim def m =
    let id = m.next_record in
    let r : AdvertisedService = record {
      name = def.service;
      scheme = def.scheme;
      caps = def.caps;
      pool = new_backend_pool;
      ready = false;
      advertised = opened;
      withdrawing = none;
      closable = false;
    } in
    (
      record (set_record m id r) { services = put def.service id m.services; next_record = id + 1 },
      claimed id,
    )

-- The caller's backend joins the pool of a serving record.
unfoldable pub add_member : String → Backend → ℕ → Manager → Manager
unfolding add put set_pool_size
add_member key b id m =
    let r = m.records id in
    let (p, size) = add r.pool b in
    set_pool_size r.name size
      (record (set_record m id (record r { pool = p })) { by_key = put key r.name m.by_key })

unfoldable pub join : String → ServiceDef → Backend → ℕ → Manager → Manager × Attempt
unfolding transition conflict_with add_member
join key def b id m = elim (transition (m.records id)) [
  | some w ↦ (m, waits id w)
  | none ↦ elim (conflict_with (m.records id) key def) [
    | some e ↦ (m, refused (conflict e))
    | none ↦ (add_member key b id m, member)
  ]
]

-- One pass of register's loop, under the lock.
unfoldable pub register_pass : String → ServiceDef → Backend → Manager → Manager × Attempt
unfolding claim join lookup has
register_pass key def b m =
    if m.shutdown
    then (m, refused shutting_down)
    else if has key m.by_key
    then (m, member)
    else elim (lookup def.service m.services) [ none ↦ claim def m | some id ↦ join key def b id m ]

-- `cur, ok := m.services[name]; ok && cur == rec`
unfoldable pub holds : ℕ → String → Manager → Bool
unfolding lookup
holds id name m = elim (lookup name m.services) [ none ↦ false | some cur ↦ eqb cur id ]

abbrev drop_name : String → Manager → Manager
unfolding delete
drop_name name m = record m { services = delete name m.services }

-- `releaseLocked`
unfoldable pub release_locked : ℕ → Manager → Option Manager
unfolding holds drop_name
release_locked id m =
    let r = m.records id in
    let m' : Manager = if holds id r.name m then drop_name r.name m else m in
    if r.ready then some m' else elim (close_chan r.advertised) [
      | none ↦ none
      | some ch ↦ some (set_record m' id (record r { advertised = ch }))
    ]

-- The section of `advertise` after the listener has opened. The flag says that the manager has shut
-- down, so that the caller closes the listener again.
unfoldable pub advertise_locked : ℕ → String → Backend → Manager → Option (Manager × Bool)
unfolding release_locked add put service_advertised
advertise_locked id key b m =
    if m.shutdown
    then elim (release_locked id m) [ none ↦ none | some m' ↦ some (m', true) ]
    else let r = m.records id in
      let (p, size) = add r.pool b in
      elim (close_chan r.advertised) [
        | none ↦ none
        | some ch ↦
            let r' : AdvertisedService = record r {
              pool = p;
              ready = true;
              advertised = ch;
              closable = true;
            } in
            some (
              service_advertised r.name size
                  (record (set_record m id r') { by_key = put key r.name m.by_key }),
              false,
            )
      ]

-- What `Deregister` comes to under its first lock.
pub data Leaving : Type 0 where
  unknown : Leaving
  -- others remain in the pool
  left : ℕ → Leaving
  -- the caller closes the listener of this record, under this name
  withdraws : ℕ → String → Leaving

unfoldable pub deregister_locked : String → Manager → Manager × Leaving
unfolding lookup delete remove set_pool_size
deregister_locked key m = elim (lookup key m.by_key) [
  | none ↦ (m, unknown)
  | some name ↦
      let m' = record m { by_key = delete key m.by_key } in
      elim (lookup name m.services) [
        | none ↦ (m', unknown)
        | some id ↦
            let r = m.records id in
            if not r.ready
            then (m', unknown)
            else let (p, size) = remove r.pool key in
              if ltb 0 size
              then (set_pool_size name size (set_record m' id (record r { pool = p })), left size)
              else (
                set_record m' id (record r { pool = p; withdrawing = some opened }),
                withdraws id name,
              )
      ]
]

-- The second lock of `Deregister`, after the listener has closed.
unfoldable pub withdrawn_locked : ℕ → String → Manager → Option Manager
unfolding holds drop_name service_withdrawn
withdrawn_locked id name m =
    let r = m.records id in
    let m' : Manager = if holds id name m then service_withdrawn name (drop_name name m) else m in
    elim r.withdrawing [
      | none ↦ none
      | some w ↦ elim (close_chan w) [
        | none ↦ none
        | some ch ↦ some (set_record m' id (record r { withdrawing = some ch }))
      ]
    ]

-- `isMagicDNSError`, of the error's text.
unfoldable pub is_magic_dns_error : String → Bool
unfolding lower_codes contains_codes
is_magic_dns_error text =
    let s = lower_codes text in
    contains_codes "magicdns" s
    || contains_codes "https certificates" s
    || contains_codes "https is not enabled" s
    || contains_codes "https not enabled" s

-- What `advertise` returns when `ListenService` fails.
unfoldable pub listen_error : String → RegisterError
unfolding is_magic_dns_error
listen_error text = if is_magic_dns_error text then fatal text else listen_failed text

-- The records that `Close` tears down.
unfoldable pub closing : (ℕ → AdvertisedService) → Map ℕ → List ℕ
closing records [] = []
closing records ((name, id) ∷ rest) =
    let ids = closing records rest in if serving (records id) then id ∷ ids else ids

unfoldable pub close_locked : Manager → Manager × List ℕ
unfolding closing all_services_withdrawn
close_locked m = (
  all_services_withdrawn (record m { shutdown = true; services = []; by_key = [] }),
  closing m.records m.services,
)
