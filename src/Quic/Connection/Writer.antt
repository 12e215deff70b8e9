-- ===== src/Quic/Connection/Writer.antt =====
-- internal/cftunnel/runtime/quic_runtime_connection.go: runtimeHTTPResponseAdapter as a
-- protocol.ResponseWriter, and the response that a handler gives over QUIC.
use cf_tunnel.Prelude.{
  ℕ, ◌≡◌, refl, ap, ◌∙◌, ◌⊎◌, inl, inr, Bool, true, false, Option, none, some, List, [], ◌∷◌, ◌++◌,
  append-nil, if_cases, arith,
}
use cf_tunnel.Text.{Text}
use cf_tunnel.Wire.{Fields}
use cf_tunnel.Upstream.{ResponseWriter, Call}
use cf_tunnel.Upstream.FirstStatus.{first_status}
use cf_tunnel.Upstream.Sent.{HasBegun}
use cf_tunnel.Upstream.Served.{served, at_most_one}
use cf_tunnel.Quic.Message.{ConnectResponse}
use cf_tunnel.Quic.Headers.{response_metadata}
use cf_tunnel.Quic.Connection.{
  Sent, connect, bytes, StreamWriter, new_writer, put, write_connect, write_resp_headers, write,
}

-- The connect responses that were sent.
unfoldable pub heads : List Sent → List ConnectResponse
heads [] = []
heads (connect r ∷ sent) = r ∷ heads sent
heads (bytes p ∷ sent) = heads sent

pub heads-append : (a b : List Sent) → heads (a ++ b) ≡ heads a ++ heads b
unfolding heads
heads-append [] b = refl
heads-append (connect r ∷ a) b = ground (arith, heads-append a b)
heads-append (bytes p ∷ a) b = heads-append a b

abbrev pub broken_error : Bool → Option (Unit {0})
broken_error true = some tt
broken_error false = none

-- The connect response of WriteRespHeaders.
abbrev pub response_of : ℕ → Fields → ConnectResponse
response_of n h = record { error = []; metadata = response_metadata n h }

module _ (broken : Sent → StreamWriter → Bool) where
  -- A write of a connect response: one more was sent, or it failed.
  abbrev pub IsPut : ConnectResponse → StreamWriter → StreamWriter × Bool → Type 0
  IsPut r w out =
      ((out.1 ≡ true) × (heads out.0.sent ≡ heads w.sent))
      ⊎ ((out.1 ≡ false) × (heads out.0.sent ≡ heads w.sent ++ r ∷ []))

  pub put-IsPut : (r : ConnectResponse) (w : StreamWriter) → IsPut r w (put broken (connect r) w)
  unfolding put heads
  put-IsPut r w =
      if_cases (IsPut r w) (broken (connect r) w) (λ _. inl (refl, refl))
        (λ _. inr (refl, heads-append w.sent (connect r ∷ [])))

  pub heads-bytes :
      (p : Text) (w : StreamWriter) → heads (put broken (bytes p) w).0.sent ≡ heads w.sent
  unfolding put heads
  heads-bytes p w =
      if_cases {A = StreamWriter × Bool} (λ out. heads out.0.sent ≡ heads w.sent)
        (broken (bytes p) w) (λ _. refl)
        (λ _. heads-append w.sent (bytes p ∷ []) ∙ append-nil (heads w.sent))

  pub put-response_sent :
      (e : Sent) (w : StreamWriter) → (put broken e w).0.response_sent ≡ w.response_sent
  unfolding put
  put-response_sent e w =
      if_cases {A = StreamWriter × Bool} (λ out. out.0.response_sent ≡ w.response_sent) (broken e w)
        (λ _. refl) (λ _. refl)

  pub write_resp_headers-IsPut :
      (n : ℕ) (h : Fields) (w : StreamWriter)
      → IsPut (response_of n h) w (write_resp_headers broken n h w)
  unfolding write_resp_headers write_connect
  write_resp_headers-IsPut n h w = put-IsPut (response_of n h) (record w { response_sent = true })

  pub write_resp_headers-sent :
      (n : ℕ) (h : Fields) (w : StreamWriter)
      → (write_resp_headers broken n h w).0.response_sent ≡ true
  unfolding write_resp_headers write_connect
  write_resp_headers-sent n h w =
      put-response_sent (connect (response_of n h)) (record w { response_sent = true })

  pub heads-sent :
      (n : ℕ) (h : Fields) (w : StreamWriter)
      → broken_error (write_resp_headers broken n h w).1 ≡ none
      → heads (write_resp_headers broken n h w).0.sent ≡ heads w.sent ++ response_of n h ∷ []
  heads-sent n h w fine = elim (write_resp_headers-IsPut n h w) [
    | inl (failed, _) ↦ ground arith
    | inr (_, more) ↦ more
  ]

  pub heads-any :
      (n : ℕ) (h : Fields) (w : StreamWriter)
      → (heads (write_resp_headers broken n h w).0.sent ≡ heads w.sent)
        ⊎ ((broken_error (write_resp_headers broken n h w).1 ≡ none)
            × (heads (write_resp_headers broken n h w).0.sent
                ≡ heads w.sent ++ response_of n h ∷ []))
  heads-any n h w = elim (write_resp_headers-IsPut n h w) [
    | inl (failed, same) ↦ inl same
    | inr (fine, more) ↦ inr (ap broken_error fine, more)
  ]

  pub heads-write :
      (p : Text) (w : StreamWriter)
      → w.response_sent ≡ true
      → heads (write broken p w).0.sent ≡ heads w.sent
  unfolding write
  heads-write p w sent =
      if_cases {A = StreamWriter × Bool} (λ out. heads out.0.sent ≡ heads w.sent) w.response_sent
        (λ _. heads-bytes p w) (λ n. ground arith)

  pub begun-write :
      (p : Text) (w : StreamWriter)
      → w.response_sent ≡ true
      → (write broken p w).0.response_sent ≡ true
  unfolding write
  begun-write p w sent =
      if_cases {A = StreamWriter × Bool} (λ out. out.0.response_sent ≡ true) w.response_sent
        (λ y. put-response_sent (bytes p) w ∙ y) (λ n. ground arith)

  -- The adapter of a stream, which may be taken over at any time and stays as it is.
  unfoldable pub writer : ResponseWriter StreamWriter (Unit {0}) ConnectResponse
  writer = record {
    write_resp_headers =
        λ n h w. let (v, failed) = write_resp_headers broken n h w in (v, broken_error failed);
    write = λ p w. let (v, failed) = write broken p w in (v, broken_error failed);
    hijack = λ w. (w, none);
    render = λ n h w. response_of n h;
    heads = λ w. heads w.sent;
    is_open = λ w. true;
    is_begun = λ w. w.response_sent;
    heads-sent = λ n h w _ fine. heads-sent n h w fine;
    heads-any = heads-any;
    begun-sent = λ n h w _. write_resp_headers-sent n h w;
    heads-write = heads-write;
    begun-write = begun-write;
    heads-hijack = λ w. refl;
    begun-hijack = λ w y. y;
    open-sent = λ n h w. refl;
    open-write = λ p w. refl;
    open-hijack = λ w e. refl;
  }

  -- The stream after ProxyHTTP has run a handler on a fresh adapter.
  abbrev pub response : Bool → List Call → StreamWriter
  response websocket calls = (served writer websocket calls new_writer).0.upstream

  -- Whatever a handler calls, the edge gets at most one connect response on the stream of a request
  -- over QUIC, without an error text, whose metadata begins with the status of the handler's first
  -- call that gives one and goes on with headers.
  pub single_connect_response :
      (websocket : Bool) (calls : List Call)
      → (heads (response websocket calls).sent ≡ [])
        ⊎ ((n : ℕ) × (h : Fields) × (first_status websocket calls ≡ some n)
            × (heads (response websocket calls).sent ≡ response_of n h ∷ []))
  unfolding writer heads HasBegun
  single_connect_response websocket calls =
      elim (at_most_one writer websocket calls new_writer refl refl) [
        | inl none_yet ↦ inl none_yet
        | inr (n, gives, (h, _, one)) ↦ inr (n, h, gives, one)
      ]
