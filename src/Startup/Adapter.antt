-- ===== src/Startup/Adapter.antt =====
-- registrarAdapter of main.go, which hands a watcher's registrations to the manager, and the channel on which it passes
-- on an error that ends the process. The calls of the manager run alone, as those of a single watcher do.
pub mod Kind
pub mod Leave
pub mod Contract
pub mod Driven
pub mod Watchers
use tsserve.Base.{ℕ, String, ◌≡◌, Option, none, some, List, [], ◌∷◌, Map, lookup, put, delete}
use tsserve.Base.Text.{itoa}
use tsserve.Labels as Labels
use tsserve.Lambda.Function.{Function}
use tsserve.Proxy.Backend.{Origin, Backend, FunctionInvoker}
use tsserve.Proxy.State.{ServiceDef, Manager}
use tsserve.Proxy.Manager.{RegisterError, fatal}
use tsserve.Proxy.Goroutine.{Goroutine, registering, returned}
use tsserve.Proxy.Calls.{register_host_port, register_function, FunctionDef, join_host_port}
use tsserve.Proxy.Alone.{register, deregister, member_of, AtRest}

-- The manager, the fatal channel, which holds one error, and the origin of the adapter's services.
pub record Adapted : Type 0 where
  pub manager : Manager
  pub fatal_error : Option RegisterError
  pub origin : Origin

send_fatal : RegisterError → Option RegisterError → Option RegisterError
send_fatal e none = some e
send_fatal e (some first) = some first

-- `forwardFatal`.
forward_fatal : Option RegisterError → Option RegisterError → Option RegisterError
unfolding send_fatal
forward_fatal (some (fatal text)) channel = send_fatal (fatal text) channel
forward_fatal _ channel = channel

unfoldable pub service_def : Origin → Labels.ServiceDef → ServiceDef
service_def origin def = record {
  service = def.service;
  port = def.port;
  network = def.network;
  scheme = def.scheme;
  caps = def.caps;
  origin = origin;
}

unfoldable pub function_def : Origin → Function → FunctionDef
function_def origin fn = record {
  service = fn.service;
  caps = fn.caps;
  origin = origin;
  invoker = some (record { arn = fn.arn; qualifier = fn.qualifier });
}

-- A call of the manager, from the goroutine at its head. `listen` is the error of `ListenService` on the state.
module _ (listen : ServiceDef → Manager → Option String) where
  call : Goroutine → Manager → Option (Manager × Option RegisterError)
  unfolding register
  call (registering key def b) m = register (listen def m) key def b m
  call (returned r) m = some (m, r)
  call _ m = none

  pub forwarded :
      Adapted → Option (Manager × Option RegisterError) → Option (Adapted × Option RegisterError)
  unfolding forward_fatal
  forwarded a none = none
  forwarded a (some (m, r)) =
      some (record a { manager = m; fatal_error = forward_fatal r a.fatal_error }, r)

  -- `Register`.
  unfoldable pub adapter_register :
      ℕ → String → Labels.ServiceDef → String → Adapted → Option (Adapted × Option RegisterError)
  unfolding forwarded call register_host_port service_def
  adapter_register now key def backend_ip a =
      forwarded a
        (call (register_host_port key (service_def a.origin def) backend_ip now) a.manager)

  -- `RegisterFunction`.
  unfoldable pub adapter_register_function :
      ℕ → String → Function → Adapted → Option (Adapted × Option RegisterError)
  unfolding forwarded call register_function function_def
  adapter_register_function now key fn a =
      forwarded a (call (register_function key (function_def a.origin fn) now) a.manager)

pub torn : Adapted → Option Manager → Option Adapted
torn a none = none
torn a (some m) = some (record a { manager = m })

-- `Deregister`.
unfoldable pub adapter_deregister : String → Adapted → Option Adapted
unfolding deregister torn
adapter_deregister key a = torn a (deregister key a.manager)

-- What the start of a reader whose account is resolved by STS makes the watcher call.
unfoldable pub account_resolved : String → Adapted → Adapted
account_resolved account a = record a { origin = record a.origin { account = account } }
