-- ===== src/Proxy/Caps/Laws.antt =====
-- Capability lists are compared as sets.
use tsserve.Base.{String, ◌≡◌, ◌↔◌, refl, Bool, true, false, List, [], ◌∷◌, contains, arith, eq_iff}
use tsserve.Proxy.Caps.{caps_subset, same_caps}

caps_subset-contains :
    (a b : List String)
    → caps_subset a b ≡ true
    → (c : String) → contains a c ≡ true
    → contains b c ≡ true
unfolding caps_subset contains
caps_subset-contains [] b h c e = ground (arith, e)
caps_subset-contains (x ∷ a) b h c e =
    ground (arith, h, e, caps_subset-contains a b (ground (arith, h)) c, eq_iff x c)

contains-caps_subset :
    (a b : List String)
    → ((c : String) → contains a c ≡ true → contains b c ≡ true)
    → caps_subset a b ≡ true
unfolding caps_subset contains
contains-caps_subset [] b h = refl
contains-caps_subset (x ∷ a) b h = ground (
  arith,
  h x (ground (arith, eq_iff x x)),
  contains-caps_subset a b (λ c e. h c (ground (arith, e))),
)

Bool-eq : (x y : Bool) → (x ≡ true → y ≡ true) → (y ≡ true → x ≡ true) → x ≡ y
Bool-eq true y f g = ground (arith, f refl)
Bool-eq false true f g = g refl
Bool-eq false false f g = refl

-- Two capability lists pass the comparison exactly when they contain the same capabilities, whatever their order and
-- repetitions.
pub same_caps_lem :
    (a b : List String) → (same_caps a b ≡ true) ↔ ((c : String) → contains a c ≡ contains b c)
unfolding same_caps
same_caps_lem a b = (
  (λ h c.
      Bool-eq (contains a c) (contains b c) (caps_subset-contains a b (ground (arith, h)) c)
        (caps_subset-contains b a (ground (arith, h)) c)),
  (λ h.
      let there = contains-caps_subset a b (λ c e. ground (arith, h c, e)) in
      let back = contains-caps_subset b a (λ c e. ground (arith, h c, e)) in
      ground (arith, there, back)),
)
