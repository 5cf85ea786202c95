-- ===== src/Proxy/Caps.antt =====
-- proxy/manager.go: capability lists compared as sets, and their rendering in an order.
pub mod Laws
use Prim.Native.Nat.{Ordering}
use Prim.Native.String.{compare}
use tsserve.Base.{String, Bool, true, false, ◌&&◌, List, [], ◌∷◌, contains, if◌then◌else◌}
use tsserve.Base.Text.{join}

unfoldable pub caps_subset : List String → List String → Bool
unfolding contains
caps_subset [] b = true
caps_subset (c ∷ a) b = contains b c && caps_subset a b

unfoldable pub same_caps : List String → List String → Bool
unfolding caps_subset
same_caps a b = caps_subset a b && caps_subset b a

abbrev pub text_le : String → String → Bool
text_le s t = elim (compare s t) [ Ordering.gt ↦ false | _ ↦ true ]

pub insert_sorted : String → List String → List String
insert_sorted c [] = c ∷ []
insert_sorted c (x ∷ xs) = if text_le c x then c ∷ x ∷ xs else x ∷ insert_sorted c xs

unfoldable pub sorted_caps : List String → List String
unfolding insert_sorted
sorted_caps [] = []
sorted_caps (c ∷ cs) = insert_sorted c (sorted_caps cs)

-- `strings.Join(sortedCaps(caps), ",")`
unfoldable pub render_caps : List String → String
unfolding sorted_caps join
render_caps caps = join "," (sorted_caps caps)
