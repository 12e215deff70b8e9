-- ===== src/Origin/Router/Sort.antt =====
-- The sort of NewRouter: the first match of the sorted routes is the longest match.
use cf_tunnel.Prelude.{◌≡◌, refl, Bool, some, List, [], ◌∷◌, ◌≤◌, find, All, arith, if◌then◌else◌}
use cf_tunnel.Text.{byte_len}
use cf_tunnel.Origin.Router.{Route, insert_route, sort_routes}
use cf_tunnel.Origin.Router.Spec.{longest, longer}

-- No route of the list is longer.
abbrev pub Tops : Route → List Route → Type 0
Tops x = All (λ y. byte_len y.path ≤ byte_len x.path)

abbrev pub IsSorted : List Route → Type 0
IsSorted [] = Unit
IsSorted (x ∷ xs) = Tops x xs × IsSorted xs

Tops-trans :
    (x y : Route) (xs : List Route) → byte_len y.path ≤ byte_len x.path → Tops y xs → Tops x xs
Tops-trans x y [] h t = tt
Tops-trans x y (z ∷ xs) h (p, t) = ground (arith, Tops-trans x y xs h t)

Tops-insert :
    (x y : Route) (xs : List Route)
    → byte_len x.path ≤ byte_len y.path
    → Tops y xs
    → Tops y (insert_route x xs)
unfolding insert_route
Tops-insert x y [] h t = (h, tt)
Tops-insert x y (z ∷ xs) h (p, t) = ground (arith, Tops-insert x y xs h t)

insert-IsSorted : (x : Route) (xs : List Route) → IsSorted xs → IsSorted (insert_route x xs)
unfolding insert_route
insert-IsSorted x [] s = (tt, tt)
insert-IsSorted x (y ∷ xs) (t, s) =
    ground (arith, insert-IsSorted x xs s, Tops-insert x y xs, Tops-trans x y xs)

pub sort-IsSorted : (xs : List Route) → IsSorted (sort_routes xs)
unfolding sort_routes
sort-IsSorted [] = tt
sort-IsSorted (x ∷ xs) = insert-IsSorted x (sort_routes xs) (sort-IsSorted xs)

module _ (p : Route → Bool) where
  -- What a sorted list finds is no longer than what tops the list.
  longer-Tops : (x : Route) (xs : List Route) → Tops x xs → longer x (find p xs) ≡ some x
  longer-Tops x [] t = refl
  longer-Tops x (y ∷ xs) (h, t) = ground (arith, longer-Tops x xs t)

  find-insert :
      (x : Route) (xs : List Route)
      → IsSorted xs
      → find p (insert_route x xs) ≡ (if p x then longer x (find p xs) else find p xs)
  unfolding insert_route
  find-insert x [] s = ground arith
  find-insert x (y ∷ xs) (t, s) =
      ground (arith, find-insert x xs s, longer-Tops x xs, Tops-trans x y xs)

  -- In the sorted list the first match is the longest one of the unsorted list.
  pub find-sort : (xs : List Route) → find p (sort_routes xs) ≡ longest p xs
  unfolding sort_routes
  find-sort [] = refl
  find-sort (x ∷ xs) = rw (find-insert x (sort_routes xs) (sort-IsSorted xs), find-sort xs)
