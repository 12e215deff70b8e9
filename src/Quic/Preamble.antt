-- ===== src/Quic/Preamble.antt =====
-- internal/cftunnel/runtime/quic_rpc_server.go: the bytes in front of a stream, and which of its two
-- protocols a stream speaks. A stream to be read is the bytes that arrive before its end.
use cf_tunnel.Prelude.{
  ℕ, ◌≡◌, refl, true, [], ◌∷◌, ◌++◌, if◌then◌else◌, take, drop, length, leb, Result, ok, err, ◌>>=◌,
  arith,
}
use cf_tunnel.Text.{Text, codes, text_eq}

-- dataStreamProtocolSignature, rpcStreamProtocolSignature
abbrev pub data_signature : Text
data_signature = 0x0a ∷ 0x36 ∷ 0xcd ∷ 0x12 ∷ 0xa1 ∷ 0x3e ∷ []

abbrev pub rpc_signature : Text
rpc_signature = 0x52 ∷ 0xbb ∷ 0x82 ∷ 0x5c ∷ 0xdb ∷ 0x65 ∷ []

-- protocolV1
abbrev pub version_bytes : Text
version_bytes = codes "01"

pub data StreamProtocol : Type 0 where
  data_stream : StreamProtocol
  rpc_stream : StreamProtocol

pub data PreambleError : Type 0 where
  short_signature : PreambleError
  unknown_signature : Text → PreambleError
  no_version : PreambleError

-- readSignature: io.ReadFull of six bytes, and the rest of the stream.
unfoldable pub read_signature : Text → Result PreambleError (Text × Text)
read_signature s = if leb 6 (length s) then ok (take 6 s, drop 6 s) else err short_signature

-- determineProtocol
unfoldable pub determine_protocol : Text → Result PreambleError (StreamProtocol × Text)
determine_protocol s = read_signature s >>= (λ r.
    if text_eq r.0 data_signature
    then ok (data_stream, r.1)
    else if text_eq r.0 rpc_signature
    then ok (rpc_stream, r.1)
    else err (unknown_signature r.0))

-- readVersion: one Read into two bytes, which may give fewer: `avail` says how many arrived. At the
-- end of the stream it fails.
unfoldable pub read_version : ℕ → Text → Result PreambleError (Text × Text)
read_version avail [] = err no_version
read_version avail (c ∷ s) = ok (take avail (c ∷ s), drop avail (c ∷ s))

-- writeDataStreamPreamble: writeSignature and writeVersion.
unfoldable pub write_preamble : Text
write_preamble = data_signature ++ version_bytes

signature-read :
    (message : Text)
    → read_signature (write_preamble ++ message) ≡ ok (data_signature, version_bytes ++ message)
unfolding read_signature write_preamble
signature-read message =
    let long : leb 6 (length (write_preamble ++ message)) ≡ true = ground arith in rw long refl

-- What stands behind the preamble that one side writes is what the other side reads on from, with
-- the protocol of a data stream and the version that was written, where the two bytes of the
-- version arrive together.
pub preamble-read :
    (message : Text)
    → (determine_protocol (write_preamble ++ message) ≡ ok (data_stream, version_bytes ++ message))
      × (read_version 2 (version_bytes ++ message) ≡ ok (version_bytes, message))
unfolding determine_protocol read_version
preamble-read message =
    (unfold determine_protocol in unfold text_eq in rw (signature-read message) refl, refl)
