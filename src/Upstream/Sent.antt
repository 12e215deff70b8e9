-- ===== src/Upstream/Sent.antt =====
-- internal/cftunnel/runtime/upstream_response_writer.go: what is known of the transport between
-- the calls of a handler, and that each operation of the transport keeps it.
use cf_tunnel.Prelude.{
  ◌∙◌, ℕ, ◌≡◌, refl, ◌⊎◌, inl, inr, Bool, true, false, none, some, [], ◌∷◌, arith,
}
use cf_tunnel.Text.{Text}
use cf_tunnel.Wire.{Fields}
use cf_tunnel.Upstream.{ResponseWriter}

module _ {S E H : Type 0} (U : ResponseWriter S E H) where
  -- One response of this status was begun.
  unfoldable pub HasBegun : ℕ → S → Type 0
  HasBegun status s = (h : Fields) × (t : S) × (U.heads s ≡ U.render status h t ∷ [])

  -- What is known of the transport, by whether the header is sent and the connection taken over.
  unfoldable pub Sent : Bool → Bool → ℕ → S → Type 0
  unfolding HasBegun
  Sent false true status s = U.heads s ≡ []
  Sent false false status s = (U.heads s ≡ []) × (U.is_open s ≡ true)
  Sent true true status s = (U.is_begun s ≡ true) × ((U.heads s ≡ []) ⊎ HasBegun status s)
  Sent true false status s = (U.is_begun s ≡ true) × (U.is_open s ≡ true) × HasBegun status s

  pub Sent-status :
      (sent hijacked : Bool) (m n : ℕ) (s : S)
      → sent ≡ false
      → Sent sent hijacked m s
      → Sent sent hijacked n s
  unfolding Sent
  Sent-status false false m n s e i = i
  Sent-status false true m n s e i = i
  Sent-status true hijacked m n s e i = ground arith

  pub Sent-headers :
      (hijacked : Bool) (n : ℕ) (h : Fields) (s : S)
      → (U.write_resp_headers n h s).1 ≡ none
      → Sent false hijacked n s
      → Sent true hijacked n (U.write_resp_headers n h s).0
  unfolding Sent HasBegun
  Sent-headers true n h s fine fresh = (
    U.begun-sent n h s fine,
    elim (U.heads-any n h s) [
      | inl same ↦ inl (same ∙ fresh)
      | inr (_, more) ↦ inr (h, s, more ∙ rw fresh refl)
    ],
  )
  Sent-headers false n h s fine (fresh, live) = (
    U.begun-sent n h s fine,
    U.open-sent n h s ∙ live,
    (h, s, U.heads-sent n h s live fine ∙ rw fresh refl),
  )

  pub Sent-failed :
      (hijacked : Bool) (n : ℕ) (h : Fields) (s : S) {reason : E}
      → (U.write_resp_headers n h s).1 ≡ some reason
      → Sent false hijacked n s
      → Sent false hijacked n (U.write_resp_headers n h s).0
  unfolding Sent
  Sent-failed true n h s failed fresh = elim (U.heads-any n h s) [
    | inl same ↦ same ∙ fresh
    | inr (fine, _) ↦ ground arith
  ]
  Sent-failed false n h s failed (fresh, live) = elim (U.heads-any n h s) [
    | inl same ↦ (same ∙ fresh, U.open-sent n h s ∙ live)
    | inr (fine, _) ↦ ground arith
  ]

  pub Sent-write :
      (hijacked : Bool) (n : ℕ) (p : Text) (s : S)
      → Sent true hijacked n s
      → Sent true hijacked n (U.write p s).0
  unfolding Sent HasBegun
  Sent-write true n p s (begun, inl fresh) =
      (U.begun-write p s begun, inl (U.heads-write p s begun ∙ fresh))
  Sent-write true n p s (begun, inr (h, t, one)) =
      (U.begun-write p s begun, inr (h, t, U.heads-write p s begun ∙ one))
  Sent-write false n p s (begun, live, (h, t, one)) =
      (U.begun-write p s begun, U.open-write p s ∙ live, (h, t, U.heads-write p s begun ∙ one))

  pub Sent-hijack :
      (sent hijacked : Bool) (n : ℕ) (s : S)
      → Sent sent hijacked n s
      → Sent sent true n (U.hijack s).0
  unfolding Sent HasBegun
  Sent-hijack false true n s fresh = U.heads-hijack s ∙ fresh
  Sent-hijack false false n s (fresh, live) = U.heads-hijack s ∙ fresh
  Sent-hijack true true n s (begun, inl fresh) =
      (U.begun-hijack s begun, inl (U.heads-hijack s ∙ fresh))
  Sent-hijack true true n s (begun, inr (h, t, one)) =
      (U.begun-hijack s begun, inr (h, t, U.heads-hijack s ∙ one))
  Sent-hijack true false n s (begun, live, (h, t, one)) =
      (U.begun-hijack s begun, inr (h, t, U.heads-hijack s ∙ one))

  pub Sent-stay :
      (sent hijacked : Bool) (n : ℕ) (s : S) {reason : E}
      → (U.hijack s).1 ≡ some reason
      → Sent sent hijacked n s
      → Sent sent hijacked n (U.hijack s).0
  unfolding Sent HasBegun
  Sent-stay sent true n s failed i = Sent-hijack sent true n s i
  Sent-stay false false n s failed (fresh, live) =
      (U.heads-hijack s ∙ fresh, U.open-hijack s failed ∙ live)
  Sent-stay true false n s failed (begun, live, (h, t, one)) =
      (U.begun-hijack s begun, U.open-hijack s failed ∙ live, (h, t, U.heads-hijack s ∙ one))

  pub Sent-heads :
      (sent hijacked : Bool) (n : ℕ) (s : S)
      → Sent sent hijacked n s
      → (U.heads s ≡ []) ⊎ HasBegun n s
  unfolding Sent
  Sent-heads false true n s fresh = inl fresh
  Sent-heads false false n s (fresh, _) = inl fresh
  Sent-heads true true n s (_, i) = i
  Sent-heads true false n s (_, _, one) = inr one

  pub Sent-unsent :
      (sent hijacked : Bool) (n : ℕ) (s : S)
      → sent ≡ false
      → Sent sent hijacked n s
      → U.heads s ≡ []
  unfolding Sent
  Sent-unsent false true n s e fresh = fresh
  Sent-unsent false false n s e (fresh, _) = fresh
  Sent-unsent true hijacked n s e i = ground arith

  pub Sent-one :
      (sent hijacked : Bool) (n : ℕ) (s : S)
      → sent ≡ true
      → hijacked ≡ false
      → Sent sent hijacked n s
      → HasBegun n s
  unfolding Sent
  Sent-one false hijacked n s e f i = ground arith
  Sent-one true true n s e f i = ground arith
  Sent-one true false n s e f (_, _, one) = one
