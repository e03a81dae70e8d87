-- ===== src/Gemini/Opening.antt =====
-- provider/gemini/gemini.go: `Stream`, which opens a streamed reply.
use skyl.Prelude.{String, ◌<>◌, leb, if◌then◌else◌}
use skyl.Errors.{GoError}
use skyl.Errors.RetryAfter.{HeaderLibrary}
use skyl.Json.{object}
use skyl.Request.{Request}
use skyl.Result.{Result, ok, err, and_then}
use skyl.Httpx.{Network, Exchange, unsent, replied, set_header}
use skyl.Sse.{new_reader, max_event_bytes}
use skyl.Sse.Lines.{new_scanner}
use skyl.Gemini.{Library, Provider, headers, transport_error}
use skyl.Gemini.Payload.{build_payload}
use skyl.Gemini.Reply.{http_error}
use skyl.Gemini.Decoder.{Decoder, new_decoder}

module _ (lib : Library) (hdr : HeaderLibrary) where
  -- A stream over the body of a reply; `close_err` is what closing that body will give.
  unfoldable pub start_stream : GoError → Exchange → Result Decoder
  unfolding http_error new_decoder
  start_stream close_err (unsent e) = err (transport_error lib e)
  start_stream close_err (replied r) =
      if leb 300 r.status
      then err (http_error lib hdr r)
      else ok (new_decoder close_err (new_reader (new_scanner max_event_bytes r.body r.read_err)))

  abbrev pub stream_url : Provider → Request → String
  stream_url p req =
      p.base_url <> ("/models/" <> (lib.path_escape req.model <> ":streamGenerateContent?alt=sse"))

  unfoldable pub open_stream : Network → Provider → GoError → Request → Result Decoder
  unfolding build_payload start_stream
  open_stream net p close_err req = and_then (build_payload lib req) (λ payload.
      start_stream close_err (
        net.post (stream_url p req) (set_header "Accept" "text/event-stream" (headers p))
          (object payload)))
