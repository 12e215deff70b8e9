-- ===== src/Upstream/Once.antt =====
-- internal/cftunnel/runtime/upstream_response_writer.go: how often and with which status a
-- responseWriterAdapter begins a response of its transport.
use cf_tunnel.Prelude.{
  sym, ℕ, ◌≡◌, refl, inl, inr, Bool, true, false, Option, none, List, [], ◌∷◌, arith, Option-cases,
  if_cases, ◌&&◌, not,
}
use cf_tunnel.Text.{Text}
use cf_tunnel.Upstream.Sent.{
  Sent, Sent-status, Sent-headers, Sent-failed, Sent-write, Sent-hijack, Sent-stay,
}
use cf_tunnel.Upstream.{
  ResponseWriter, Adapter, Call, header_to, status_call, write_call, hijack_call, new_adapter,
  clone_header, write_known, hijack_known, write_header, send_header, pass_write, write_bytes,
  pass_hijack, take_over, finalize, step, run, unless_failed,
}

module _ {S E H : Type 0} (U : ResponseWriter S E H) where
  -- The header is sent with a status only, and at most one response was begun, of that status.
  unfoldable pub IsOnce : Adapter S → Type 0
  unfolding Sent
  IsOnce w =
      (w.wrote_header ≡ false → w.sent_header ≡ false)
      × Sent U w.sent_header w.is_hijacked w.status w.upstream

  pub new_adapter-IsOnce :
      (s : S) (websocket : Bool)
      → U.heads s ≡ []
      → U.is_open s ≡ true
      → IsOnce (new_adapter s websocket)
  unfolding IsOnce new_adapter Sent
  new_adapter-IsOnce s websocket fresh live = ((λ _. refl), (fresh, live))

  write_header-IsOnce : (n : ℕ) (w : Adapter S) → IsOnce w → IsOnce (write_header n w)
  unfolding IsOnce write_header
  write_header-IsOnce n w (a, i) =
      if_cases IsOnce w.wrote_header (λ _. (a, i))
        (λ y. (
          (λ x. ground arith),
          Sent-status U w.sent_header w.is_hijacked w.status n w.upstream (a y) i,
        ))

  send_header-IsOnce :
      (w : Adapter S)
      → w.wrote_header ≡ true
      → w.sent_header ≡ false
      → IsOnce w
      → IsOnce (send_header U w).0
  unfolding IsOnce send_header
  send_header-IsOnce w wrote unsent (a, i) =
      let fresh : Sent U false w.is_hijacked w.status w.upstream = rw (sym unsent) i in
      let h = clone_header w.header in
      elim (Option-cases (U.write_resp_headers w.status h w.upstream).1) [
        | inl fine ↦
            rw (fine, send_header)
              ((λ x. ground arith), Sent-headers U w.is_hijacked w.status h w.upstream fine fresh)
        | inr (reason, failed) ↦
            rw (failed, send_header, unsent)
              ((λ x. refl), Sent-failed U w.is_hijacked w.status h w.upstream failed fresh)
      ]

  pass_write-IsOnce :
      (p : Text) (w : Adapter S) → w.sent_header ≡ true → IsOnce w → IsOnce (pass_write U p w).0
  unfolding IsOnce pass_write
  pass_write-IsOnce p w sent (a, i) =
      (a, rw sent (Sent-write U w.is_hijacked w.status p w.upstream (rw (sym sent) i)))

  pass_hijack-IsOnce : (w : Adapter S) → IsOnce w → IsOnce (pass_hijack U w).0
  unfolding IsOnce pass_hijack
  pass_hijack-IsOnce w (a, i) = elim (Option-cases (U.hijack w.upstream).1) [
    | inl fine ↦
        rw (fine, pass_hijack) (a, Sent-hijack U w.sent_header w.is_hijacked w.status w.upstream i)
    | inr (reason, failed) ↦
        rw (failed, pass_hijack)
          (a, Sent-stay U w.sent_header w.is_hijacked w.status w.upstream failed i)
  ]

  pub send_header-sent :
      (w : Adapter S) → (send_header U w).1 ≡ none → (send_header U w).0.sent_header ≡ true
  unfolding send_header
  send_header-sent w fine =
      elim (Option-cases (U.write_resp_headers w.status (clone_header w.header) w.upstream).1) [
        | inl e ↦ rw (e, send_header) refl
        | inr (reason, failed) ↦ ground arith
      ]

  -- Behind a send that may fail.
  unless_failed-IsOnce :
      (w : Adapter S) (next : Adapter S → Adapter S × Option E)
      → w.wrote_header ≡ true
      → w.sent_header ≡ false
      → IsOnce w
      → ((v : Adapter S) → v.sent_header ≡ true → IsOnce v → IsOnce (next v).0)
      → IsOnce (unless_failed (send_header U w) next).0
  unfolding unless_failed
  unless_failed-IsOnce w next wrote unsent i keep =
      let sent = send_header-IsOnce w wrote unsent i in
      elim (Option-cases (send_header U w).1) [
        | inl fine ↦
            rw (fine, unless_failed) (keep (send_header U w).0 (send_header-sent w fine) sent)
        | inr (reason, failed) ↦ rw (failed, unless_failed) sent
      ]

  write_known-IsOnce :
      (p : Text) (w : Adapter S) → w.wrote_header ≡ true → IsOnce w → IsOnce (write_known U p w).0
  unfolding write_known
  write_known-IsOnce p w wrote i =
      if_cases {A = Adapter S × Option E} (λ r. IsOnce r.0) w.sent_header
        (λ y. pass_write-IsOnce p w y i)
        (λ n. unless_failed-IsOnce w (pass_write U p) wrote n i (pass_write-IsOnce p))

  hijack_known-IsOnce : (w : Adapter S) → IsOnce w → IsOnce (hijack_known U w).0
  unfolding hijack_known
  hijack_known-IsOnce w i =
      if_cases {A = Adapter S × Option E} (λ r. IsOnce r.0) (w.wrote_header && not w.sent_header)
        (λ y.
          unless_failed-IsOnce w (pass_hijack U) (ground arith) (ground arith) i
            (λ v _. pass_hijack-IsOnce v))
        (λ n. pass_hijack-IsOnce w i)

  write_header-wrote : (n : ℕ) (w : Adapter S) → (write_header n w).wrote_header ≡ true
  unfolding write_header
  write_header-wrote n w = ground arith

  step-IsOnce : (c : Call) (w : Adapter S) → IsOnce w → IsOnce (step U c w)
  unfolding step write_bytes take_over
  step-IsOnce (header_to h) w i = unfold IsOnce in i
  step-IsOnce (status_call n) w i = write_header-IsOnce n w i
  step-IsOnce (write_call p) w i =
      write_known-IsOnce p (write_header 200 w) (write_header-wrote 200 w)
        (write_header-IsOnce 200 w i)
  step-IsOnce hijack_call w i =
      hijack_known-IsOnce _
        (if_cases IsOnce w.websocket (λ _. write_header-IsOnce 101 w i) (λ _. i))

  pub run-IsOnce : (calls : List Call) (w : Adapter S) → IsOnce w → IsOnce (run U calls w)
  unfolding run
  run-IsOnce [] w i = i
  run-IsOnce (c ∷ calls) w i = run-IsOnce calls (step U c w) (step-IsOnce c w i)

  pub finalize-IsOnce : (w : Adapter S) → IsOnce w → IsOnce (finalize U w).0
  unfolding finalize
  finalize-IsOnce w i =
      if_cases {A = Adapter S × Option E} (λ r. IsOnce r.0) w.is_hijacked (λ _. i)
        (λ _.
          if_cases {A = Adapter S × Option E} (λ r. IsOnce r.0)
            (w.wrote_header && not w.sent_header)
            (λ y. send_header-IsOnce w (ground arith) (ground arith) i) (λ _. i))
