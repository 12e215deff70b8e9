-- ===== src/Edge/Pool.antt =====
-- internal/cftunnel/runtime/edge_pool.go. The mutex makes each operation one step. The addresses are
-- of any type with a text, addrString. What the resolver would answer is an argument of each step:
-- `none` for a nil resolver.
pub mod Bindings
pub mod Held
pub mod Distinct
pub mod Trace
use cf_tunnel.Prelude.{
  ℕ, ◌%◌, ◌==◌, Bool, true, false, ◌||◌, ◌&&◌, not, Option, none, some, List, [], ◌∷◌, Result, ok,
  err, length, get_elem?, find, if◌then◌else◌, ◌<|>◌,
}
use cf_tunnel.Text.{Text, text_eq}

pub record Pool (A : Type 0) : Type 0 where
  pub addrs : List A
  pub used_by : List (ℕ × A)
  pub resolved : Bool

pub data PoolError (E : Type 0) : Type 0 where
  no_usable nil_resolver index_range : PoolError E
  not_resolved : E → PoolError E

-- newEdgeAddressPool
unfoldable pub new_pool : {A : Type 0} → Pool A
new_pool = record { addrs = []; used_by = []; resolved = false }

module _ {A : Type 0} where
  -- usedBy[i]
  unfoldable pub bound : ℕ → List (ℕ × A) → Option A
  bound i [] = none
  bound i ((j, a) ∷ m) = if j == i then some a else bound i m

  -- delete(usedBy, i)
  unfoldable pub release : ℕ → List (ℕ × A) → List (ℕ × A)
  release i [] = []
  release i ((j, a) ∷ m) = let rest = release i m in if j == i then rest else (j, a) ∷ rest

  -- usedBy[i] = a
  unfoldable pub bind : ℕ → A → List (ℕ × A) → List (ℕ × A)
  unfolding release
  bind i a m = (i, a) ∷ release i m

  abbrev is_nil : List A → Bool
  is_nil [] = true
  is_nil (_ ∷ _) = false

module _ {A E : Type 0} where
  abbrev usable_or_error : Pool A → Result (PoolError E) (Pool A)
  usable_or_error p = if is_nil p.addrs then err no_usable else ok p

  -- ensureResolved. On an error the pool that stays behind is `after_resolve`.
  unfoldable pub ensure_resolved :
      Option (Result E (List A)) → Pool A → Result (PoolError E) (Pool A)
  ensure_resolved resolve p = if p.resolved then usable_or_error p else elim resolve [
    | none ↦ err nil_resolver
    | some (err e) ↦ err (not_resolved e)
    | some (ok addrs) ↦ usable_or_error (record p { addrs = addrs; resolved = true })
  ]

  -- The pool after ensureResolved, whatever it returned.
  unfoldable pub after_resolve : Option (Result E (List A)) → Pool A → Pool A
  after_resolve resolve p = if p.resolved then p else elim resolve [
    | none ↦ p
    | some (err e) ↦ p
    | some (ok addrs) ↦ record p { addrs = addrs; resolved = true }
  ]

module _ {A : Type 0} (addr_string : A → Text) where
  -- Whether an address is bound to some index.
  unfoldable pub in_use : Text → List (ℕ × A) → Bool
  in_use t [] = false
  in_use t ((j, a) ∷ m) = text_eq (addr_string a) t || in_use t m

  abbrev is_excluded : Option A → Text → Bool
  is_excluded none t = false
  is_excluded (some x) t = text_eq (addr_string x) t

  -- unusedAddrLocked
  unfoldable pub unused_addr : Option A → Pool A → Option A
  unfolding in_use
  unused_addr exclude p =
      find (λ a. not (in_use (addr_string a) p.used_by || is_excluded exclude (addr_string a)))
        p.addrs

  -- The address that addrFor chooses for an index with none; `none` is an index out of range.
  unfoldable pub choose : ℕ → Pool A → Option A
  choose i p = unused_addr none p <|> get_elem? p.addrs (i % length p.addrs)

  -- addrFor, behind its call of ensureResolved
  unfoldable pub assign : {E : Type 0} → ℕ → Pool A → Result (PoolError E) Text × Pool A
  assign i q = elim (bound i q.used_by) [
    | some a ↦ (ok (addr_string a), q)
    | none ↦ elim (choose i q) [
      | none ↦ (err index_range, q)
      | some a ↦ (ok (addr_string a), record q { used_by = bind i a q.used_by })
    ]
  ]

  -- addrFor
  unfoldable pub addr_for :
      {E : Type 0} → Option (Result E (List A)) → ℕ → Pool A → Result (PoolError E) Text × Pool A
  addr_for resolve i p = elim (ensure_resolved resolve p) [
    | err e ↦ (err e, after_resolve resolve p)
    | ok q ↦ assign i q
  ]

  abbrev rebind : ℕ → Option A → Pool A → Pool A
  rebind i none p = p
  rebind i (some a) p = record p { used_by = bind i a p.used_by }

  -- rotate
  unfoldable pub rotate : ℕ → Pool A → Pool A
  rotate i p =
      if not p.resolved || is_nil p.addrs
      then p
      else (let old = bound i p.used_by in
          let freed = record p { used_by = release i p.used_by } in
          rebind i (unused_addr old freed <|> old) freed)
