-- ===== src/Startup/Adapter/Driven.antt =====
-- What the containers and the functions that a watcher registers ask for, and that the registrar which the manager is
-- for the watcher makes the calls of main.go's adapter.
use tsserve.Base.{ℕ, String, ◌≡◌, refl, Option, none, some}
use tsserve.Base.Text.{itoa}
use tsserve.Labels as Labels
use tsserve.Ecs.Tasks as EcsTasks
use tsserve.Docker.Watcher as Docker
use tsserve.Lambda.Function.{Function, Registration, registration_of}
use tsserve.Proxy.Backend.{scheme_lambda, invoker_target}
use tsserve.Proxy.State.{ServiceDef, Manager}
use tsserve.Proxy.Manager.{RegisterError}
use tsserve.Proxy.Calls.{join_host_port, register_host_port, register_function}
use tsserve.Proxy.Alone.{register, deregister}
use tsserve.Proxy.Alone.Register.{register-Registered}
use tsserve.Proxy.Alone.Deregister.{deregister-Deregistered}
use tsserve.Startup.Adapter.{
  Adapted, service_def, function_def, call, adapter_register, adapter_register_function,
  adapter_deregister,
}
use tsserve.Startup.Adapter.Kind.{Kind, Served, result_state}
use tsserve.Startup.Adapter.Leave.{deregister_served, leave-torn}
use tsserve.Startup.Adapter.Contract.{register_served, finish-forwarded}

-- A container: its service and port, and its address.
unfoldable pub container_kind :
    (Labels.ServiceDef × String → String)
    → (RegisterError → String)
    → Kind (Labels.ServiceDef × String) String
unfolding service_def join_host_port itoa
container_kind described text = record {
  service = λ o d. service_def o d.0;
  backend = λ o now key d. record {
    key = key;
    addr = join_host_port d.1 (itoa d.0.port);
    registered_at = now;
    origin = o;
    invoker = none;
    target = "";
  };
  place = λ b. b.addr;
  asked = λ d. record {
    service = d.0.service;
    scheme = d.0.scheme;
    caps = d.0.caps;
    place = join_host_port d.1 (itoa d.0.port);
  };
  described = described;
  text = text;
  backend-key = λ o now key d. refl;
  backend-place = λ o now key d. refl;
  service-asked = λ o d. (refl, refl, refl);
}

unfoldable pub function_kind : (RegisterError → String) → Kind Function Registration
unfolding registration_of invoker_target
function_kind text = record {
  service = λ o fn. record {
    service = fn.service;
    port = 0;
    network = "";
    scheme = scheme_lambda;
    caps = fn.caps;
    origin = o;
  };
  backend = λ o now key fn. record {
    key = key;
    addr = "";
    registered_at = now;
    origin = o;
    invoker = some (record { arn = fn.arn; qualifier = fn.qualifier });
    target = invoker_target (record { arn = fn.arn; qualifier = fn.qualifier });
  };
  place = λ b. b.target;
  asked = λ fn. record {
    service = fn.service;
    scheme = scheme_lambda;
    caps = fn.caps;
    place = invoker_target (record { arn = fn.arn; qualifier = fn.qualifier });
  };
  described = registration_of;
  text = text;
  backend-key = λ o now key fn. refl;
  backend-place = λ o now key fn. refl;
  service-asked = λ o fn. (refl, refl, refl);
}

abbrev pub ecs_kind : (RegisterError → String) → Kind (Labels.ServiceDef × String) String
ecs_kind = container_kind (λ d. EcsTasks.backend_addr d.1 d.0.port)

abbrev pub docker_kind : (RegisterError → String) → Kind (Labels.ServiceDef × String) String
docker_kind = container_kind (λ d. Docker.backend_addr d.1 d.0.port)

module _ (listen : ServiceDef → Manager → Option String) (clock : Adapted → ℕ)
    (text : RegisterError → String) where
  -- The registrar that the ECS watcher drives is main.go's adapter.
  pub register_served-adapter :
      (described : Labels.ServiceDef × String → String) (key ip : String) (def : Labels.ServiceDef)
      (s : Served (container_kind described text))
      → result_state (adapter_register listen (clock s.adapted) key def ip s.adapted)
        ≡ some
            (register_served (container_kind described text) listen clock key (def, ip) s).0.adapted
  unfolding adapter_register call register_host_port register_served container_kind service_def
  register_served-adapter described key ip def s =
      finish-forwarded (container_kind described text) listen clock key (def, ip) s
        (register (listen (service_def s.adapted.origin def) s.adapted.manager) key
          (service_def s.adapted.origin def)
          ((container_kind described text).backend s.adapted.origin (clock s.adapted) key (def, ip))
          s.adapted.manager)
        (λ j.
          register-Registered key j (service_def s.adapted.origin def)
            ((container_kind described text).backend s.adapted.origin (clock s.adapted) key
              (def, ip))
            s.adapted.manager
            ((container_kind described text).backend-key s.adapted.origin (clock s.adapted) key
              (def, ip))
            s.rest (listen (service_def s.adapted.origin def) s.adapted.manager))

  -- A deregistration by a watcher is main.go's, too.
  pub deregister_served-adapter :
      {D V : Type 0} (kind : Kind D V) (key : String) (s : Served kind)
      → adapter_deregister key s.adapted ≡ some (deregister_served kind listen clock key s).adapted
  unfolding adapter_deregister deregister_served
  deregister_served-adapter kind key s =
      leave-torn kind listen clock key s (deregister key s.adapted.manager)
        (λ j. deregister-Deregistered key j s.adapted.manager s.rest)

  -- The registrar that the Lambda watcher drives is main.go's adapter.
  pub register_served-adapter_function :
      (key : String) (fn : Function) (s : Served (function_kind text))
      → result_state (adapter_register_function listen (clock s.adapted) key fn s.adapted)
        ≡ some (register_served (function_kind text) listen clock key fn s).0.adapted
  unfolding adapter_register_function call register_function register_served function_kind
      function_def
  register_served-adapter_function key fn s =
      finish-forwarded (function_kind text) listen clock key fn s
        (register (listen ((function_kind text).service s.adapted.origin fn) s.adapted.manager) key
          ((function_kind text).service s.adapted.origin fn)
          ((function_kind text).backend s.adapted.origin (clock s.adapted) key fn)
          s.adapted.manager)
        (λ j.
          register-Registered key j ((function_kind text).service s.adapted.origin fn)
            ((function_kind text).backend s.adapted.origin (clock s.adapted) key fn)
            s.adapted.manager
            ((function_kind text).backend-key s.adapted.origin (clock s.adapted) key fn) s.rest
            (listen ((function_kind text).service s.adapted.origin fn) s.adapted.manager))
