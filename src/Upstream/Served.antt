-- ===== src/Upstream/Served.antt =====
-- internal/cftunnel/runtime/upstream_response_writer.go: the response of a whole request, from the
-- handler's writer to the end of finalize.
use cf_tunnel.Prelude.{
  ℕ, ◌≡◌, ◌∙◌, ◌⊎◌, inl, inr, Bool, true, false, ◌&&◌, not, Option, none, some, List, [], sym,
  if_cases, Bool-cases, arith,
}
use cf_tunnel.Upstream.{ResponseWriter, Adapter, Call, new_adapter, finalize, run}
use cf_tunnel.Upstream.Sent.{HasBegun, Sent-heads, Sent-one, Sent-unsent}
use cf_tunnel.Upstream.Once.{
  IsOnce, send_header-sent, new_adapter-IsOnce, run-IsOnce, finalize-IsOnce,
}
use cf_tunnel.Upstream.FirstStatus.{first_status, known, finalize-IsSame, known-same, known-run}

module _ {S E H : Type 0} (U : ResponseWriter S E H) where
  -- What the transport has of a handler's calls, from its writer to the end of finalize.
  unfoldable pub served : Bool → List Call → S → Adapter S × Option E
  served websocket calls s = finalize U (run U calls (new_adapter s websocket))

  served-IsOnce :
      (websocket : Bool) (calls : List Call) (s : S)
      → U.heads s ≡ []
      → U.is_open s ≡ true
      → IsOnce U (served websocket calls s).0
  unfolding served
  served-IsOnce websocket calls s fresh live =
      finalize-IsOnce U _ (run-IsOnce U calls _ (new_adapter-IsOnce U s websocket fresh live))

  known-served :
      (websocket : Bool) (calls : List Call) (s : S)
      → known U (served websocket calls s).0 [] ≡ first_status websocket calls
  unfolding served new_adapter
  known-served websocket calls s =
      let w = run U calls (new_adapter s websocket) in
      known-same U w (finalize U w).0 [] (finalize-IsSame U w)
      ∙ known-run U calls (new_adapter s websocket)

  IsOnce-heads :
      (w : Adapter S)
      → IsOnce U w
      → (U.heads w.upstream ≡ [])
        ⊎ ((known U w [] ≡ some w.status) × HasBegun U w.status w.upstream)
  unfolding IsOnce
  IsOnce-heads w (a, i) = elim (Bool-cases w.wrote_header) [
    | inl wrote ↦ elim (Sent-heads U w.sent_header w.is_hijacked w.status w.upstream i) [
      | inl none_yet ↦ inl none_yet
      | inr begun ↦ inr (ground arith, begun)
    ]
    | inr unknown ↦
        inl (Sent-unsent U w.sent_header w.is_hijacked w.status w.upstream (a unknown) i)
  ]

  -- Whatever a handler does with its writer, the transport is asked to begin at most one response,
  -- and one that is begun has the status of the handler's first call that gives one: an explicit
  -- WriteHeader, informational statuses included, a Write (200), or a Hijack for a websocket (101).
  pub at_most_one :
      (websocket : Bool) (calls : List Call) (s : S)
      → U.heads s ≡ []
      → U.is_open s ≡ true
      → (U.heads (served websocket calls s).0.upstream ≡ [])
        ⊎ ((n : ℕ) × (first_status websocket calls ≡ some n)
            × HasBegun U n (served websocket calls s).0.upstream)
  at_most_one websocket calls s fresh live =
      let w = (served websocket calls s).0 in
      elim (IsOnce-heads w (served-IsOnce websocket calls s fresh live)) [
        | inl none_yet ↦ inl none_yet
        | inr (k, begun) ↦ inr (w.status, sym (known-served websocket calls s) ∙ k, begun)
      ]

  abbrev IsSentAfter : Adapter S → Adapter S × Option E → Type 0
  IsSentAfter w r =
      r.0.is_hijacked ≡ false → w.wrote_header ≡ true → r.1 ≡ none → r.0.sent_header ≡ true

  finalize-sent :
      (w : Adapter S)
      → (finalize U w).0.is_hijacked ≡ false
      → w.wrote_header ≡ true
      → (finalize U w).1 ≡ none
      → (finalize U w).0.sent_header ≡ true
  unfolding finalize
  finalize-sent w =
      if_cases {A = Adapter S × Option E} (λ r. IsSentAfter w r) w.is_hijacked
        (λ y kept wrote fine. ground arith)
        (λ _.
          if_cases {A = Adapter S × Option E} (λ r. IsSentAfter w r)
            (w.wrote_header && not w.sent_header) (λ y kept wrote fine. send_header-sent U w fine)
            (λ n kept wrote fine. ground arith))

  served-sent :
      (websocket : Bool) (calls : List Call) (s : S)
      → (served websocket calls s).0.is_hijacked ≡ false
      → (served websocket calls s).0.wrote_header ≡ true
      → (served websocket calls s).1 ≡ none
      → (served websocket calls s).0.sent_header ≡ true
  unfolding served
  served-sent websocket calls s kept wrote fine =
      let w = run U calls (new_adapter s websocket) in
      let (same, _, _) = finalize-IsSame U w in finalize-sent w kept (sym same ∙ wrote) fine

  IsOnce-one :
      (w : Adapter S)
      → IsOnce U w
      → w.sent_header ≡ true
      → w.is_hijacked ≡ false
      → HasBegun U w.status w.upstream
  unfolding IsOnce
  IsOnce-one w (_, i) done kept =
      Sent-one U w.sent_header w.is_hijacked w.status w.upstream done kept i

  known-status :
      (w : Adapter S) {n : ℕ} → known U w [] ≡ some n → (w.wrote_header ≡ true) × (w.status ≡ n)
  unfolding first_status
  known-status w k = elim (Bool-cases w.wrote_header) [
    | inl y ↦ ground arith
    | inr n ↦ ground arith
  ]

  -- On a transport that has begun no response yet and is open, a handler whose calls give a status
  -- n has one response begun, of status n, once finalize returned without an error, unless the
  -- connection was taken over.
  pub exactly_one :
      (websocket : Bool) (calls : List Call) (s : S) {n : ℕ}
      → U.heads s ≡ []
      → U.is_open s ≡ true
      → first_status websocket calls ≡ some n
      → (served websocket calls s).0.is_hijacked ≡ false
      → (served websocket calls s).1 ≡ none
      → HasBegun U n (served websocket calls s).0.upstream
  exactly_one websocket calls s fresh live gives kept fine =
      let w = (served websocket calls s).0 in
      let (wrote, status) = known-status w (known-served websocket calls s ∙ gives) in
      rw (sym status) (
        IsOnce-one w (served-IsOnce websocket calls s fresh live)
          (served-sent websocket calls s kept wrote fine) kept)
