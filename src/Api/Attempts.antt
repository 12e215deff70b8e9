-- ===== src/Api/Attempts.antt =====
-- internal/cftunnel/api/client.go: how often CreateQuickTunnel asks for a tunnel.
use cf_tunnel.Prelude.{
  ℕ, Option, suc, ◌+◌, ◌≤◌, ◌<◌, ◌≡◌, refl, sym, ◌∙◌, ◌⊎◌, inl, inr, Bool, true, false, List, [],
  ◌∷◌, length, Result, ok, err, Result-cases, Bool-cases, arith,
}
use cf_tunnel.Session.{Reservation}
use cf_tunnel.Text.{Text}
use cf_tunnel.Api.{
  QuickTunnelResponse, ApiRequest, Exchange, Client, create_once, tunnel_request,
  create_quick_tunnel, ApiError, attempts, is_rate_limited_error, retry_canceled,
}

-- The error of a rate limit.
unfoldable pub is_limited : Result ApiError Reservation → Bool
is_limited (ok r) = false
is_limited (err e) = is_rate_limited_error e

le_split : (a b : ℕ) → a ≤ b → (a ≡ b) ⊎ (suc a ≤ b)
le_split a b h = omega arith

module _ (once : ℕ → Result ApiError Reservation) (fires : ℕ → Bool) where
  -- The attempt n is the last one: the backoffs are used up, or it was not limited, and its result
  -- is the result; or the context was done while its timer ran.
  abbrev pub IsEnd : Result ApiError Reservation → List ℕ → ℕ → Type 0
  IsEnd r backoffs n =
      ((r ≡ once n) × ((n ≡ length backoffs) ⊎ (is_limited (once n) ≡ false)))
      ⊎ ((r ≡ err retry_canceled) × (is_limited (once n) ≡ true) × (fires n ≡ false))

  -- The same, with the attempts counted from k.
  abbrev IsLast : Result ApiError Reservation → List ℕ → ℕ → ℕ → Type 0
  IsLast r backoffs k n =
      ((r ≡ once n) × ((n ≡ k + length backoffs) ⊎ (is_limited (once n) ≡ false)))
      ⊎ ((r ≡ err retry_canceled) × (is_limited (once n) ≡ true) × (fires n ≡ false))

  abbrev pub AreRetried : ℕ → ℕ → Type 0
  AreRetried k n = (i : ℕ) → k ≤ i → i < n → (is_limited (once i) ≡ true) × (fires i ≡ true)

  AreRetried-suc :
      (k n : ℕ)
      → (is_limited (once k) ≡ true) × (fires k ≡ true)
      → AreRetried (suc k) n
      → AreRetried k n
  AreRetried-suc k n now later i a b = elim (le_split k i a) [
    | inl same ↦ rw (sym same) now
    | inr more ↦ later i more b
  ]

  none_before : (k : ℕ) → AreRetried k k
  none_before k i a b = absurd (omega arith)

  IsLast-suc :
      (b : ℕ) (bs : List ℕ) (k n : ℕ) {r s : Result ApiError Reservation}
      → r ≡ s
      → IsLast s bs (suc k) n
      → IsLast r (b ∷ bs) k n
  IsLast-suc b bs k n e (inl (t, inl used)) = inl (e ∙ t, inl (omega arith))
  IsLast-suc b bs k n e (inl (t, inr other)) = inl (e ∙ t, inr other)
  IsLast-suc b bs k n e (inr (t, limited, late)) = inr (e ∙ t, limited, late)

  attempts-from :
      (backoffs : List ℕ) (k : ℕ)
      → (n : ℕ) × (k ≤ n)
        × (n ≤ k + length backoffs)
        × AreRetried k n
        × IsLast (attempts once fires backoffs k) backoffs k n
  unfolding attempts is_limited
  attempts-from [] k = (k, omega arith, omega arith, none_before k, inl (refl, inl (omega arith)))
  attempts-from (b ∷ bs) k = elim (Result-cases (once k)) [
    | inl (r, e) ↦
        (k, omega arith, omega arith, none_before k, inl (ground arith, inr ground arith))
    | inr (e, failed) ↦ elim (Bool-cases (is_rate_limited_error e)) [
      | inr other ↦
          (k, omega arith, omega arith, none_before k, inl (ground arith, inr ground arith))
      | inl limited ↦ elim (Bool-cases (fires k)) [
        | inr late ↦
            (k, omega arith, omega arith, none_before k, inr (ground arith, ground arith, late))
        | inl fired ↦
            let (n, low, high, retried, last) = attempts-from bs (suc k) in
            (
              n,
              omega arith,
              omega arith,
              AreRetried-suc k n (ground arith, fired) retried,
              IsLast-suc b bs k n (ground arith) last,
            )
      ]
    ]
  ]

IsLast-zero :
    (once : ℕ → Result ApiError Reservation) (fires : ℕ → Bool) (bs : List ℕ) (n : ℕ)
    {r : Result ApiError Reservation}
    → IsLast once fires r bs 0 n
    → IsEnd once fires r bs n
IsLast-zero once fires bs n (inl (t, inl used)) = inl (t, inl (omega arith))
IsLast-zero once fires bs n (inl (t, inr other)) = inl (t, inr other)
IsLast-zero once fires bs n (inr late) = inr late

-- CreateQuickTunnel asks at most once more than there are backoffs. Every attempt before the last
-- one was rate limited and its timer fired; the last one was not limited or used up the backoffs,
-- and its result is the result, or it was limited and the context was done before its timer.
pub create_quick_tunnel-attempts :
    (decode : Text → Option QuickTunnelResponse) (parse_uuid : Text → Option Text)
    (exchange : ApiRequest → ℕ → Exchange) (fires : ℕ → Bool) (c : Client)
    → let once : ℕ → Result ApiError Reservation =
        λ i. create_once decode parse_uuid (exchange (tunnel_request c) i) in
      (n : ℕ) × (n ≤ length c.retry_backoffs)
      × AreRetried once fires 0 n
      × IsEnd once fires (create_quick_tunnel decode parse_uuid exchange fires c) c.retry_backoffs n
unfolding create_quick_tunnel
create_quick_tunnel-attempts decode parse_uuid exchange fires c =
    let once : ℕ → Result ApiError Reservation =
      λ i. create_once decode parse_uuid (exchange (tunnel_request c) i) in
    let (n, _, high, retried, last) = attempts-from once fires c.retry_backoffs 0 in
    (n, omega (arith, high), retried, IsLast-zero once fires c.retry_backoffs n last)
