-- ===== src/Startup/Adapter/Leave.antt =====
-- A deregistration takes its key out of what the manager serves and out of the adapter's registrations.
use tsserve.Base.{
  ℕ, String, ◌≡◌, Bool-cases, refl, Option, none, some, lookup, delete, lookup-delete, arith, ◌==◌,
  if◌then◌else◌, inl, inr,
}
use tsserve.Proxy.State.{ServiceDef, Manager}
use tsserve.Proxy.Alone.{deregister, member_of}
use tsserve.Proxy.Alone.Deregister.{Deregistered, deregister-Deregistered}
use tsserve.Startup.Adapter.{Adapted, torn}
use tsserve.Startup.Adapter.Kind.{ServedAs, ServedAs-ap, asked_by, Kind, Served}

module _ {D V : Type 0} (kind : Kind D V) (listen : ServiceDef → Manager → Option String)
    (clock : Adapted → ℕ) where
  module _ (key : String) (s : Served kind) where
    pub without-shown :
        (m : Manager)
        → ((j : String)
            → member_of m j ≡ (if key == j then none else member_of s.adapted.manager j))
        → (k : String)
        → ServedAs kind.place (member_of m k) (asked_by kind.asked (lookup k (delete key s.given)))
    without-shown m now k = elim (Bool-cases (key == k)) [
      | inl same ↦
          ServedAs-ap kind.place none (member_of m k) none
            (asked_by kind.asked (lookup k (delete key s.given))) (ground (arith, now k, same))
            (ground (arith, same, lookup-delete key k s.given)) tt
      | inr other ↦
          ServedAs-ap kind.place (member_of s.adapted.manager k) (member_of m k)
            (asked_by kind.asked (lookup k s.given))
            (asked_by kind.asked (lookup k (delete key s.given))) (ground (arith, now k, other))
            (ground (arith, other, lookup-delete key k s.given)) (s.shown k)
    ]

    pub leave :
        (r : Option Manager) → ((j : String) → Deregistered key j s.adapted.manager r) → Served kind
    leave none p = absurd (p key)
    leave (some m) p = record {
      adapted = record s.adapted { manager = m };
      rest = (p key).0;
      given = delete key s.given;
      shown = without-shown m (λ j. (p j).1);
    }

    unfoldable pub deregister_served : Served kind
    unfolding leave
    deregister_served =
        leave (deregister key s.adapted.manager)
          (λ j. deregister-Deregistered key j s.adapted.manager s.rest)

    pub leave-given :
        (r : Option Manager) (p : (j : String) → Deregistered key j s.adapted.manager r)
        → (leave r p).given ≡ delete key s.given
    unfolding leave
    leave-given none p = absurd (p key)
    leave-given (some m) p = refl

    pub leave-torn :
        (r : Option Manager) (p : (j : String) → Deregistered key j s.adapted.manager r)
        → torn s.adapted r ≡ some (leave r p).adapted
    unfolding leave torn
    leave-torn none p = absurd (p key)
    leave-torn (some m) p = refl

    pub deregister_served-given : deregister_served.given ≡ delete key s.given
    unfolding deregister_served
    deregister_served-given =
        leave-given (deregister key s.adapted.manager)
          (λ j. deregister-Deregistered key j s.adapted.manager s.rest)
