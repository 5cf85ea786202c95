-- ===== src/Tests/Registrar.antt =====
-- A registrar that keeps what it is given and refuses the key "bad".
use tsserve.Base.{
  ◌≡◌, String, Option, none, some, lookup, put, delete, Map, lookup-put, lookup-delete, arith, ◌==◌,
  if◌then◌else◌,
}
use tsserve.Discovery.Registrar.{Registrar}

unfoldable pub map_register : {D V : Type 0} → (D → V) → String → D → Map V → Map V × Option String
map_register f k d s = if k == "bad" then (s, some "refused") else (put k (f d) s, none)

pub register_ok :
    {D V : Type 0} (f : D → V) (k j : String) (d : D) (s : Map V)
    → (map_register f k d s).1 ≡ none
    → lookup j (map_register f k d s).0 ≡ (if k == j then some (f d) else lookup j s)
unfolding map_register
register_ok f k j d s fine = ground (arith, fine, lookup-put k j (f d) s)

pub register_err :
    {D V : Type 0} (f : D → V) (k j : String) (d : D) (s : Map V) (e : String)
    → (map_register f k d s).1 ≡ some e
    → lookup j (map_register f k d s).0 ≡ lookup j s
unfolding map_register
register_err f k j d s e bad = ground (arith, bad)

unfoldable pub map_registrar : {D V : Type 0} → (D → V) → Registrar (Map V) D V String
unfolding map_register
map_registrar f = record {
  register = map_register f;
  deregister = delete;
  holds = λ s k. lookup k s;
  described = f;
  holds-register_ok = λ k j d s free fine. register_ok f k j d s fine;
  holds-register_err = λ k j d s e bad. register_err f k j d s e bad;
  holds-deregister = λ k j s. lookup-delete k j s;
}
