-- ===== src/Registration/Control.antt =====
-- internal/cftunnel/runtime/control_stream.go: the control stream of a connection, from its
-- registration to the end. What the edge and the connection do is an argument.
use cf_tunnel.Prelude.{
  ℕ, suc, ◌==◌, ◌≡◌, refl, ◌⊎◌, inl, inr, Bool, true, false, ◌&&◌, ◌||◌, not, Option, none, some,
  List, [], ◌∷◌, ◌++◌, if◌then◌else◌, Result, ok, err, if_cases,
}
use cf_tunnel.Text.{Text}
use cf_tunnel.Http2.Serve.{ServeResult, serve_result}
use cf_tunnel.Registration.{ConnectionDetails}

-- What ServeControlStream does, in order, with its registration client and its fuse.
pub data Act : Type 0 where
  register : Act
  connected : Act
  send_config : Text → Act
  unregister : Act
  close : Act

-- Why waitForUnregister goes on.
pub data Wake (E : Type 0) : Type 0 where
  context_done : E → Wake E
  graceful_shutdown : Wake E

-- The edge and the connection around a control stream.
pub record Outside (E : Type 0) : Type 0 where
  pub registration : Result E ConnectionDetails
  pub config_json : Option Text
  pub wake : Wake E
  pub unregistration : Option E

-- What is left of ServeControlStream: its acts, its error, and stoppedGracefully.
pub record Ran (E : Type 0) : Type 0 where
  pub acts : List Act
  pub error : Option E
  pub is_stopped : Bool

-- The error of waitForUnregister: that of GracefulShutdown, or else that of the context.
unfoldable pub wait_error : {E : Type 0} → Wake E → Option E → Option E
wait_error wake (some e) = some e
wait_error (context_done e) none = some e
wait_error graceful_shutdown none = none

-- stoppedGracefully
unfoldable pub wakes_stopped : {E : Type 0} → Wake E → Bool
wakes_stopped (context_done e) = false
wakes_stopped graceful_shutdown = true

-- The configuration goes to the edge over the first connection of a tunnel that is managed here.
unfoldable pub config_acts : ℕ → ConnectionDetails → Option Text → List Act
config_acts index details none = []
config_acts index details (some json) =
    if index == 0 && not details.is_remotely_managed then send_config json ∷ [] else []

-- ServeControlStream behind RegisterConnection, with waitForUnregister.
unfoldable pub run_control :
    {E : Type 0} → Result E ConnectionDetails → Outside E → ℕ → Bool → Ran E
run_control (err e) o index before = record {
  acts = register ∷ close ∷ [];
  error = some e;
  is_stopped = before;
}
run_control (ok details) o index before = record {
  acts =
      register ∷ connected ∷ (config_acts index details o.config_json ++ unregister ∷ close ∷ []);
  error = wait_error o.wake o.unregistration;
  is_stopped = wakes_stopped o.wake || before;
}

-- ServeControlStream
unfoldable pub serve_control_stream : {E : Type 0} → Outside E → ℕ → Bool → Ran E
unfolding run_control
serve_control_stream o index before = run_control o.registration o index before

-- How far the control stream is when ServeConn returns, which does not wait for its handlers:
-- before waitForUnregister wakes, behind that, or at its end with controlStreamErr set.
pub data Progress : Type 0 where
  waiting woken ended : Progress

-- What Serve reads of it: IsStopped and controlStreamErr.
unfoldable pub seen_at : {E : Type 0} → Progress → Ran E → Bool × Option E
seen_at waiting ran = (false, none)
seen_at woken ran = (ran.is_stopped, none)
seen_at ended ran = (ran.is_stopped, ran.error)

-- Serve over HTTP/2, for a control stream that has not stopped before.
unfoldable pub serve_at : {E : Type 0} → Progress → Outside E → ℕ → ServeResult E
serve_at progress o index =
    let (is_stopped, error) = seen_at progress (serve_control_stream o index false) in
    serve_result is_stopped error

-- How many acts of a kind there are.
unfoldable pub count : (Act → Bool) → List Act → ℕ
count p [] = 0
count p (a ∷ acts) = if p a then suc (count p acts) else count p acts

unfoldable pub is_close : Act → Bool
is_close close = true
is_close register = false
is_close connected = false
is_close (send_config c) = false
is_close unregister = false

unfoldable pub is_connected : Act → Bool
is_connected connected = true
is_connected register = false
is_connected close = false
is_connected (send_config c) = false
is_connected unregister = false

unfoldable pub is_unregister : Act → Bool
is_unregister unregister = true
is_unregister register = false
is_unregister close = false
is_unregister (send_config c) = false
is_unregister connected = false

unfoldable pub is_ok : {E A : Type 0} → Result E A → Bool
is_ok (ok a) = true
is_ok (err e) = false

-- The acts end with the only close; so many times, the connection was connected and unregistered.
abbrev pub EndsClosed : ℕ → List Act → Type 0
EndsClosed n acts =
    (before : List Act) × (acts ≡ before ++ close ∷ [])
    × (count is_close before ≡ 0)
    × (count is_connected before ≡ n)
    × (count is_unregister before ≡ n)

config_acts-cases :
    (index : ℕ) (details : ConnectionDetails) (json : Option Text)
    → (config_acts index details json ≡ [])
      ⊎ ((t : Text) × (config_acts index details json ≡ send_config t ∷ []))
unfolding config_acts
config_acts-cases index details none = inl refl
config_acts-cases index details (some t) =
    if_cases (λ acts. (acts ≡ []) ⊎ ((u : Text) × (acts ≡ send_config u ∷ [])))
      (index == 0 && not details.is_remotely_managed) (λ _. inr (t, refl)) (λ _. inl refl)

registered-EndsClosed :
    (config : List Act)
    → (config ≡ []) ⊎ ((t : Text) × (config ≡ send_config t ∷ []))
    → EndsClosed 1 (register ∷ connected ∷ (config ++ unregister ∷ close ∷ []))
unfolding count is_close is_connected is_unregister
registered-EndsClosed config (inl e) =
    rw e (register ∷ connected ∷ unregister ∷ [], refl, refl, refl, refl)
registered-EndsClosed config (inr (t, e)) =
    rw e (register ∷ connected ∷ send_config t ∷ unregister ∷ [], refl, refl, refl, refl)

run_control-EndsClosed :
    {E : Type 0} (r : Result E ConnectionDetails) (o : Outside E) (index : ℕ) (before : Bool)
    → EndsClosed (if is_ok r then 1 else 0) (run_control r o index before).acts
unfolding run_control is_ok count is_close is_connected is_unregister
run_control-EndsClosed (ok details) o index before =
    registered-EndsClosed (config_acts index details o.config_json)
      (config_acts-cases index details o.config_json)
run_control-EndsClosed (err e) o index before = (register ∷ [], refl, refl, refl, refl)

-- A control stream closes its registration client once, as the last thing it does. The connection is
-- taken for connected exactly if the edge registered it, and exactly then it is unregistered,
-- once, before the end.
pub closed_last :
    {E : Type 0} (o : Outside E) (index : ℕ) (before : Bool)
    → EndsClosed (if is_ok o.registration then 1 else 0) (serve_control_stream o index before).acts
unfolding serve_control_stream
closed_last o index before = run_control-EndsClosed o.registration o index before
