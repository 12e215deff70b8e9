-- ===== src/Upstream/FirstStatus.antt =====
-- internal/cftunnel/runtime/upstream_response_writer.go: the status of the response that a handler
-- gets, whatever else it calls.
use cf_tunnel.Prelude.{
  ℕ, ◌≡◌, refl, ◌∙◌, inl, inr, Bool, ◌&&◌, not, Option, none, some, List, [], ◌∷◌, if◌then◌else◌,
  if_cases, Option-cases, arith,
}
use cf_tunnel.Text.{Text}
use cf_tunnel.Upstream.{
  ResponseWriter, Adapter, Call, header_to, status_call, write_call, hijack_call, clone_header,
  write_header, send_header, pass_write, write_known, write_bytes, pass_hijack, hijack_known,
  take_over, finalize, step, run, unless_failed,
}

-- The status of the first call that gives one: WriteHeader its own, Write 200 and, for a
-- websocket, Hijack 101.
unfoldable pub first_status : Bool → List Call → Option ℕ
first_status websocket [] = none
first_status websocket (header_to h ∷ calls) = first_status websocket calls
first_status websocket (status_call n ∷ calls) = some n
first_status websocket (write_call p ∷ calls) = some 200
first_status websocket (hijack_call ∷ calls) =
    let rest = first_status websocket calls in if websocket then some 101 else rest

module _ {S E H : Type 0} (U : ResponseWriter S E H) where
  -- The status that is known before the calls, or else the first that they give.
  abbrev pub known : Adapter S → List Call → Option ℕ
  known w calls = if w.wrote_header then some w.status else first_status w.websocket calls

  abbrev pub IsSame : Adapter S → Adapter S → Type 0
  IsSame w v =
      (v.wrote_header ≡ w.wrote_header) × (v.status ≡ w.status) × (v.websocket ≡ w.websocket)

  send_header-IsSame : (w : Adapter S) → IsSame w (send_header U w).0
  unfolding send_header
  send_header-IsSame w =
      elim (Option-cases (U.write_resp_headers w.status (clone_header w.header) w.upstream).1) [
        | inl fine ↦ rw (fine, send_header) (refl, refl, refl)
        | inr (reason, failed) ↦ rw (failed, send_header) (refl, refl, refl)
      ]

  pass_hijack-IsSame : (w : Adapter S) → IsSame w (pass_hijack U w).0
  unfolding pass_hijack
  pass_hijack-IsSame w = elim (Option-cases (U.hijack w.upstream).1) [
    | inl fine ↦ rw (fine, pass_hijack) (refl, refl, refl)
    | inr (reason, failed) ↦ rw (failed, pass_hijack) (refl, refl, refl)
  ]

  unless_failed-IsSame :
      (w : Adapter S) (next : Adapter S → Adapter S × Option E)
      → ((v : Adapter S) → IsSame v (next v).0)
      → IsSame w (unless_failed (send_header U w) next).0
  unfolding unless_failed
  unless_failed-IsSame w next keep =
      let (a, b, c) = send_header-IsSame w in
      let (x, y, z) = keep (send_header U w).0 in
      elim (Option-cases (send_header U w).1) [
        | inl fine ↦ rw (fine, unless_failed) (x ∙ a, y ∙ b, z ∙ c)
        | inr (reason, failed) ↦ rw (failed, unless_failed) (a, b, c)
      ]

  write_known-IsSame : (p : Text) (w : Adapter S) → IsSame w (write_known U p w).0
  unfolding write_known pass_write
  write_known-IsSame p w =
      if_cases {A = Adapter S × Option E} (λ r. IsSame w r.0) w.sent_header
        (λ _. (refl, refl, refl))
        (λ _. unless_failed-IsSame w (pass_write U p) (λ v. (refl, refl, refl)))

  hijack_known-IsSame : (w : Adapter S) → IsSame w (hijack_known U w).0
  unfolding hijack_known
  hijack_known-IsSame w =
      if_cases {A = Adapter S × Option E} (λ r. IsSame w r.0) (w.wrote_header && not w.sent_header)
        (λ _. unless_failed-IsSame w (pass_hijack U) pass_hijack-IsSame) (λ _. pass_hijack-IsSame w)

  pub known-same :
      (w v : Adapter S) (calls : List Call) → IsSame w v → known v calls ≡ known w calls
  known-same w v calls (a, b, c) = ground arith

  known-write_header :
      (n : ℕ) (w : Adapter S) (calls : List Call)
      → known (write_header n w) calls ≡ (if w.wrote_header then some w.status else some n)
  unfolding write_header
  known-write_header n w calls = ground arith

  known-step :
      (c : Call) (w : Adapter S) (calls : List Call)
      → known (step U c w) calls ≡ known w (c ∷ calls)
  unfolding step write_bytes take_over first_status
  known-step (header_to h) w calls = refl
  known-step (status_call n) w calls = known-write_header n w calls
  known-step (write_call p) w calls =
      let v = write_header 200 w in
      known-same v (write_known U p v).0 calls (write_known-IsSame p v)
      ∙ known-write_header 200 w calls
  known-step hijack_call w calls =
      let v = if w.websocket then write_header 101 w else w in
      known-same v (hijack_known U v).0 calls (hijack_known-IsSame v)
      ∙ if_cases (λ x. known x calls ≡ known w (hijack_call ∷ calls)) w.websocket
          (λ y. known-write_header 101 w calls ∙ ground arith) (λ n. ground arith)

  pub known-run : (calls : List Call) (w : Adapter S) → known (run U calls w) [] ≡ known w calls
  unfolding run
  known-run [] w = refl
  known-run (c ∷ calls) w = known-run calls (step U c w) ∙ known-step c w calls

  pub finalize-IsSame : (w : Adapter S) → IsSame w (finalize U w).0
  unfolding finalize
  finalize-IsSame w =
      if_cases {A = Adapter S × Option E} (λ r. IsSame w r.0) w.is_hijacked
        (λ _. (refl, refl, refl))
        (λ _.
          if_cases {A = Adapter S × Option E} (λ r. IsSame w r.0)
            (w.wrote_header && not w.sent_header) (λ _. send_header-IsSame w)
            (λ _. (refl, refl, refl)))
