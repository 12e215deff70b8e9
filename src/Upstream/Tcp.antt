-- ===== src/Upstream/Tcp.antt =====
-- internal/cftunnel/runtime/upstream_origin_proxy.go: the relay of a TCP stream between the edge and an
-- origin. The dialer, the streams and the timing of the two copies are arguments.
pub mod Faithful
use cf_tunnel.Prelude.{
  ℕ, ◌+◌, ◌==◌, ◌≡◌, refl, ◌∙◌, Bool, true, false, not, Option, none, some, List, [], ◌∷◌, ◌++◌,
  append_assoc, if◌then◌else◌, length, length-append, take, arith, if_cases, Option-cases,
  Bool-cases, inl, inr, ◌≤◌,
}
use cf_tunnel.Text.{Text, is_empty}

-- What a reader gives: some bytes and no error, or its last bytes, with the end of the stream (`none`)
-- or an error.
pub data Source (E : Type 0) : Type 0 where
  more : Text → Source E → Source E
  ends : Text → Option E → Source E

-- What a writer answers: how many bytes it took, and its error.
pub record Taken (E : Type 0) : Type 0 where
  pub count : ℕ
  pub error : Option E

pub data CopyError (E : Type 0) : Type 0 where
  write_failed : E → CopyError E
  short_write : CopyError E
  read_failed : E → CopyError E

-- What is left of copyTCPStream: the bytes that the writer took, `written`, and the error.
pub record Copied (E : Type 0) : Type 0 where
  pub delivered : Text
  pub written : ℕ
  pub error : Option (CopyError E)

module _ {E : Type 0} (writer : Text → Text → Taken E) where
  -- One write of the loop: the bytes that the writer took behind those before, and why the loop ends.
  unfoldable pub write_chunk : Text → Text → Text × ℕ × Option (CopyError E)
  write_chunk before [] = (before, 0, none)
  write_chunk before (c ∷ p) =
      let out = writer before (c ∷ p) in
      (
        before ++ take out.count (c ∷ p),
        out.count,
        elim out.error [
          | some e ↦ some (write_failed e)
          | none ↦ if out.count == length (c ∷ p) then none else some short_write
        ],
      )

  unfoldable pub read_error : Option E → Option (CopyError E)
  read_error none = none
  read_error (some e) = some (read_failed e)

  -- The loop goes on behind a write that took all its bytes.
  unfoldable pub after_chunk :
      ℕ → Text × ℕ × Option (CopyError E) → (Text → ℕ → Copied E) → Copied E
  after_chunk written (delivered, n, some reason) next = record {
    delivered = delivered;
    written = written + n;
    error = some reason;
  }
  after_chunk written (delivered, n, none) next = next delivered (written + n)

  -- copyTCPStream, from what was delivered and written before.
  unfoldable pub copy_stream : Text → ℕ → Source E → Copied E
  copy_stream before written (ends p e) =
      after_chunk written (write_chunk before p)
        (λ delivered total. record { delivered = delivered; written = total; error = read_error e })
  copy_stream before written (more p source) =
      after_chunk written (write_chunk before p)
        (λ delivered total. copy_stream delivered total source)

-- isBenignTCPProxyError, of an error that is there: the end of a stream or of a connection that was
-- closed here.
pub data TcpError (E : Type 0) : Type 0 where
  no_destination : TcpError E
  not_dialed : E → TcpError E
  not_acked : E → TcpError E
  stream_failed : E → TcpError E
  context_ended : E → TcpError E

-- Why ProxyTCP stops waiting: the context, or the first copy, with its error.
pub data TcpWake (E : Type 0) : Type 0 where
  context_done : E → TcpWake E
  first_copy : Option E → TcpWake E

module _ {E : Type 0} (is_benign : E → Bool) where
  unfoldable pub unless_benign : Option E → Option (TcpError E)
  unless_benign none = none
  unless_benign (some e) = if is_benign e then none else some (stream_failed e)

  -- The `select` of ProxyTCP, with the error of the second copy.
  unfoldable pub relay_error : TcpWake E → Option E → Option (TcpError E)
  unfolding unless_benign
  relay_error (context_done e) tail = some (context_ended e)
  relay_error (first_copy none) tail = unless_benign tail
  relay_error (first_copy (some e)) tail = unless_benign (some e)

  -- ProxyTCP, of a request and an acker that are there.
  unfoldable pub proxy_tcp : Text → Option E → Option E → TcpWake E → Option E → Option (TcpError E)
  unfolding relay_error
  proxy_tcp [] dial ack wake tail = some no_destination
  proxy_tcp (c ∷ dest) (some e) ack wake tail = some (not_dialed e)
  proxy_tcp (c ∷ dest) none (some e) wake tail = some (not_acked e)
  proxy_tcp (c ∷ dest) none none wake tail = relay_error wake tail
