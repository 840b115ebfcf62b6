-- ===== src/Gateway/Server/Laws.antt =====
-- The server's ceiling, and what it hands to the handler.
use agentic_attribution.Prelude.{
  ℕ, ◌≤◌, ◌<◌, String, Bool, false, Option, none, some, List, [], ◌∷◌, Throws, ok, ◌≡◌, refl, arith,
  lookup, length,
}
use mathlib.Core.List.{append-nil}
use agentic_attribution.Js.Integer.{ℤ}
use agentic_attribution.Js.Stream.{join_chunks, collect}
use agentic_attribution.Js.Stream.Laws.{collect_lem}
use agentic_attribution.Platform.{Platform}
use agentic_attribution.Gateway.Body.{read_bounded}
use agentic_attribution.Gateway.KeyCache.{KeyCache}
use agentic_attribution.Gateway.Handler.{
  GatewayEnv, Request, refusal, Forwarded, OriginResponse, handle,
}
use agentic_attribution.Gateway.Server.{
  max_body_bytes, IncomingMessage, buffered, body_stream, to_headers, located, to_request, answered,
  serve,
}

pub body_stream-read_bounded :
    (exceeds : String → ℕ → Bool) (declared : Option String) (bytes : List ℕ)
    → elim declared [ none ↦ false | some t ↦ exceeds t max_body_bytes ] ≡ false
    → length bytes ≤ max_body_bytes
    → read_bounded exceeds declared (body_stream (buffered bytes)) ≡ some bytes
unfolding read_bounded body_stream collect join_chunks
body_stream-read_bounded exceeds declared [] honest h = rw honest refl
body_stream-read_bounded exceeds declared (byte ∷ bytes) honest h =
    rw (honest, append-nil) (ground arith)

-- The request that the handler gets.
abbrev pub request_of : IncomingMessage → (path : String) → List ℕ → Request
request_of req path bytes = record {
  method = "POST";
  pathname = path;
  headers = to_headers req.headers;
  stream = body_stream (buffered bytes);
}

module _ (pathname : (url base : String) → Throws String) (port : String) where
  to_request-posted :
      (req : IncomingMessage) (path : String) (bytes : List ℕ)
      → req.method ≡ some "POST"
      → located pathname port req ≡ ok path
      → to_request pathname port req (buffered bytes) ≡ ok (request_of req path bytes)
  unfolding to_request
  to_request-posted req path [] m l = rw (m, l) refl
  to_request-posted req path (byte ∷ bytes) m l = rw (m, l) refl

  module _ {Key : Type 0} (platform : Platform Key)
      (fetch : Forwarded → Throws OriginResponse) where
    -- A POST with a body of more than 256 KiB, however it is cut and whatever it declares, is answered
    -- with 413 and `body_too_large`; nothing is sent and the key cache is kept. With a body within the
    -- ceiling and no over-long declaration, the handler gets a POST for the same path with the same
    -- headers, and reads the body whole.
    pub serve-body :
        (cache : KeyCache Key) (env : GatewayEnv) (req : IncomingMessage) (now : ℤ) (path : String)
        → req.method ≡ some "POST"
        → located pathname port req ≡ ok path
        → let body = join_chunks req.stream in
          let served = serve pathname port platform fetch cache env req now in
          let request = request_of req path body in
          let h = handle platform fetch cache env request now in
          (max_body_bytes < length body
            → served ≡ record {
              response = refusal 413 "request body exceeds 262144 bytes" (some "body_too_large");
              effects = [];
              cache = cache;
            })
          × (length body ≤ max_body_bytes
              → (served ≡ answered h h.reply)
                × (elim (lookup "content-length" request.headers) [
                  | none ↦ false
                  | some t ↦ platform.number_exceeds t max_body_bytes
                ]
                      ≡ false
                    → read_bounded platform.number_exceeds
                        (lookup "content-length" request.headers)
                        request.stream
                      ≡ some body))
    unfolding serve
    serve-body cache env req now path m l =
        let body = join_chunks req.stream in
        let c = collect_lem max_body_bytes req.stream in
        (
          λ large. rw (m, c) (ground arith),
          λ small. (
            rw (m, c) (ground (arith, to_request-posted req path body m l)),
            λ honest. body_stream-read_bounded platform.number_exceeds _ body honest small,
          ),
        )
