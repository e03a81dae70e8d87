-- ===== src/Oai/Opening.antt =====
-- internal/oai/oai.go: `Stream`, which opens a streamed reply.
use skyl.Prelude.{◌<>◌, true, leb, if◌then◌else◌}
use skyl.Errors.{GoError}
use skyl.Errors.RetryAfter.{HeaderLibrary}
use skyl.Json.{object}
use skyl.Request.{Request}
use skyl.Result.{Result, ok, err, and_then}
use skyl.Httpx.{Network, Exchange, unsent, replied, set_header}
use skyl.Sse.{new_reader, max_event_bytes}
use skyl.Sse.Lines.{new_scanner}
use skyl.Oai.{Library, Config, headers, transport_error}
use skyl.Oai.Build.{build_payload}
use skyl.Oai.Reply.{http_error}
use skyl.Oai.Decoder.{Decoder, new_decoder}

module _ (lib : Library) (hdr : HeaderLibrary) (net : Network) (cfg : Config) where
  -- A stream over the body of a reply; `close_err` is what closing that body will give.
  unfoldable pub start_stream : GoError → Exchange → Result Decoder
  unfolding http_error new_decoder
  start_stream close_err (unsent e) = err (transport_error lib cfg e)
  start_stream close_err (replied r) =
      if leb 300 r.status
      then err (http_error lib hdr net cfg r)
      else ok (
          new_decoder cfg.name close_err
            (new_reader (new_scanner max_event_bytes r.body r.read_err)))

  unfoldable pub open_stream : GoError → Request → Result Decoder
  unfolding build_payload start_stream
  open_stream close_err req = and_then (build_payload lib cfg req true) (λ payload.
      start_stream close_err (
        net.post (cfg.base_url <> "/chat/completions")
          (set_header "Accept" "text/event-stream" (headers cfg)) (object payload)))
