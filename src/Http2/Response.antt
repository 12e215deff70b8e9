-- ===== src/Http2/Response.antt =====
-- internal/cftunnel/runtime/http2_runtime_connection.go with upstream_response_writer.go beside it: the
-- response that the edge gets over HTTP/2 to a request that a handler serves.
use cf_tunnel.Prelude.{ℕ, ◌==◌, if◌then◌else◌, ◌≡◌, refl, ◌⊎◌, inl, inr, Bool, some, List, [], ◌∷◌}
use cf_tunnel.Text.{Text}
use cf_tunnel.Wire.{Fields}
use cf_tunnel.Upstream.{Call}
use cf_tunnel.Upstream.FirstStatus.{first_status}
use cf_tunnel.Upstream.Sent.{HasBegun}
use cf_tunnel.Upstream.Served.{served, at_most_one}
use cf_tunnel.Http2.{RequestType, RespWriter, Taken, new_writer, wire_status, response_dest}
use cf_tunnel.Http2.Writer.{heads, writer}

module _ (taken : Text → RespWriter → Taken) where
  -- The runtimeHTTP2RespWriter after ProxyHTTP has run a handler on a fresh one.
  abbrev pub response : RequestType → Bool → List Call → RespWriter
  response t websocket calls = (served (writer taken) websocket calls (new_writer t)).0.upstream

  -- A handler, whatever it calls, gets at most one WriteHeader on the HTTP/2 stream of its
  -- request, and its status is that of the handler's first call that gives one (an explicit
  -- WriteHeader, informational statuses included, a Write for 200, a Hijack of a websocket for
  -- 101), with 200 in place of 101.
  pub single_response :
      (t : RequestType) (websocket : Bool) (calls : List Call)
      → (heads (response t websocket calls).events ≡ [])
        ⊎ ((n : ℕ) × (dest : Fields) × (first_status websocket calls ≡ some n)
            × (heads (response t websocket calls).events
                ≡ (if n == 101 then 200 else n, dest) ∷ []))
  unfolding wire_status writer new_writer heads HasBegun
  single_response t websocket calls =
      elim (at_most_one (writer taken) websocket calls (new_writer t) refl refl) [
        | inl none_yet ↦ inl none_yet
        | inr (n, gives, (h, rp, one)) ↦ inr (n, response_dest h rp.dest, gives, one)
      ]
