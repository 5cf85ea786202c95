-- ===== src/Proxy/State.antt =====
-- proxy/manager.go: the state of the manager. A pointer to an advertised service is the number of its
-- record in `records`; a channel is open until it is closed. The collector's gauges stand beside the
-- index whose size they show, and are absent when no collector is wired.
use tsserve.Base.{
  ℕ, String, Bool, true, false, ◌&&◌, Option, none, some, List, [], Map, put, delete, eqb,
  if◌then◌else◌,
}
use tsserve.Base.Int.{ℤ, pos, inc, dec}
use tsserve.Proxy.Backend.{Origin}
use tsserve.Proxy.Pool.{BackendPool, new_backend_pool}

pub record ServiceDef : Type 0 where
  pub service : String
  pub port : ℕ
  pub network : String
  pub scheme : String
  pub caps : List String
  pub origin : Origin

pub record ConflictError : Type 0 where
  pub service : String
  pub key : String
  pub field : String
  pub advertised : String
  pub offered : String

pub data Chan : Type 0 where
  opened closed : Chan

-- `close(ch)`; `none` is the panic on a closed channel.
abbrev pub close_chan : Chan → Option Chan
close_chan opened = some closed
close_chan closed = none

pub record AdvertisedService : Type 0 where
  pub name : String
  pub scheme : String
  pub caps : List String
  pub pool : BackendPool
  pub ready : Bool
  pub advertised : Chan
  pub withdrawing : Option Chan
  -- `cancel` and `closeFn` are set
  pub closable : Bool

abbrev pub is_none {ℓ} : {A : Type ℓ} → Option A → Bool
is_none none = true
is_none (some a) = false

-- The state of a record that a registration can join.
abbrev pub serving : AdvertisedService → Bool
serving r = r.ready && is_none r.withdrawing

pub record Gauges : Type 0 where
  pub active : ℤ
  pub backends : Map ℕ

pub record Manager : Type 0 where
  pub services : Map ℕ
  pub by_key : Map String
  pub shutdown : Bool
  pub records : ℕ → AdvertisedService
  pub next_record : ℕ
  pub metrics : Option Gauges

abbrev pub update {ℓ} : {A : Type ℓ} → (ℕ → A) → ℕ → A → ℕ → A
update f i v j = if eqb i j then v else f j

abbrev pub set_record : Manager → ℕ → AdvertisedService → Manager
set_record m id r = record m { records = update m.records id r }

abbrev pub on_gauges : (Gauges → Gauges) → Manager → Manager
on_gauges f m = record m { metrics = elim m.metrics [ none ↦ none | some g ↦ some (f g) ] }

unfoldable pub set_pool_size : String → ℕ → Manager → Manager
unfolding put
set_pool_size service n = on_gauges (λ g. record g { backends = put service n g.backends })

unfoldable pub service_advertised : String → ℕ → Manager → Manager
unfolding set_pool_size
service_advertised service n m =
    set_pool_size service n (on_gauges (λ g. record g { active = inc g.active }) m)

unfoldable pub service_withdrawn : String → Manager → Manager
unfolding delete
service_withdrawn service =
    on_gauges (λ g. record g { active = dec g.active; backends = delete service g.backends })

unfoldable pub all_services_withdrawn : Manager → Manager
all_services_withdrawn = on_gauges (λ g. record { active = pos 0; backends = [] })

abbrev blank_record : AdvertisedService
unfolding new_backend_pool
blank_record = record {
  name = "";
  scheme = "";
  caps = [];
  pool = new_backend_pool;
  ready = false;
  advertised = opened;
  withdrawing = none;
  closable = false;
}

-- The manager without the listener factory, the resolver of peers and the logger, which are arguments
-- of what uses them. `with_metrics` says whether a collector is given.
unfoldable pub new_manager : Bool → Manager
unfolding new_backend_pool
new_manager with_metrics = record {
  services = [];
  by_key = [];
  shutdown = false;
  records = λ _. blank_record;
  next_record = 0;
  metrics = if with_metrics then some (record { active = pos 0; backends = [] }) else none;
}
