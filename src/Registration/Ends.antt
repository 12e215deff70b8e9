-- ===== src/Registration/Ends.antt =====
-- internal/cftunnel/runtime/http2_runtime_connection.go and control_stream.go: what Serve returns for
-- what becomes of its control stream.
use cf_tunnel.Prelude.{ℕ, ◌≡◌, refl, Option, none, some, Result, ok, err}
use cf_tunnel.Text.{Text}
use cf_tunnel.Http2.Serve.{ServeResult, serve_result, stopped, control_stream_failed, edge_closed}
use cf_tunnel.Registration.{ConnectionDetails}
use cf_tunnel.Registration.Control.{
  Wake, context_done, graceful_shutdown, Outside, wait_error, wakes_stopped, run_control,
  serve_control_stream, Progress, waiting, woken, ended, seen_at, serve_at,
}

module _ {E : Type 0} where
  -- What is to be returned: after a graceful shutdown nil, whatever becomes of unregistering; at the
  -- end of the control stream otherwise its error, which is that of registering or unregistering, or
  -- else that of the context; before, that the edge closed the connection.
  unfoldable pub due : Progress → Result E ConnectionDetails → Wake E → Option E → ServeResult E
  due waiting registration wake unregistration = edge_closed
  due woken (err e) wake unregistration = edge_closed
  due woken (ok details) graceful_shutdown unregistration = stopped
  due woken (ok details) (context_done d) unregistration = edge_closed
  due ended (err e) wake unregistration = control_stream_failed e
  due ended (ok details) graceful_shutdown unregistration = stopped
  due ended (ok details) (context_done d) (some e) = control_stream_failed e
  due ended (ok details) (context_done d) none = control_stream_failed d

  result_lem :
      (progress : Progress) (registration : Result E ConnectionDetails) (wake : Wake E)
      (unregistration : Option E) (json : Option Text) (index : ℕ)
      → let o : Outside E = record {
        registration = registration;
        config_json = json;
        wake = wake;
        unregistration = unregistration;
      } in
        serve_at progress o index ≡ due progress registration wake unregistration
  unfolding serve_at seen_at serve_control_stream run_control wait_error wakes_stopped serve_result
      due
  result_lem waiting registration wake unregistration json index = refl
  result_lem woken (err e) wake unregistration json index = refl
  result_lem woken (ok details) graceful_shutdown unregistration json index = refl
  result_lem woken (ok details) (context_done d) unregistration json index = refl
  result_lem ended (err e) wake unregistration json index = refl
  result_lem ended (ok details) graceful_shutdown none json index = refl
  result_lem ended (ok details) graceful_shutdown (some e) json index = refl
  result_lem ended (ok details) (context_done d) (some e) json index = refl
  result_lem ended (ok details) (context_done d) none json index = refl

  -- Over HTTP/2, for a control stream that has not stopped before, by how far it is when ServeConn
  -- returns: behind a graceful shutdown Serve returns nil, whatever unregistering comes to; where
  -- the stream has ended otherwise, the error of registering or of unregistering, or else that of
  -- the context; and before either, the error that the edge closed the connection.
  pub serve_at-due :
      (progress : Progress) (o : Outside E) (index : ℕ)
      → serve_at progress o index ≡ due progress o.registration o.wake o.unregistration
  serve_at-due progress o index =
      result_lem progress o.registration o.wake o.unregistration o.config_json index
