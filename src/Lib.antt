-- ===== src/Lib.antt =====
-- skyl: one client for the chat APIs of several providers, in Go.
--
-- A caller builds a request, the client validates it, and calls a provider's adapter in a loop that
-- retries transport failures and failures of the server with a jittered backoff. A reply comes back
-- whole or as a stream of events that an adapter decodes from server-sent events. Hooks see every
-- attempt and the end of every stream; the telemetry is such a hook. The gateway is an HTTP server in
-- front of clients.
--
-- Files, with the code that they are about (paths from the root of the repository):
--
--   Prelude    tests on numbers, 64-bit integers, lists and texts shared by the rest
--   Errors     errors.go: sentinels, *Error, errors.Is and errors.As on chains, NewError,
--              ClassifyStatus, ParseRetryAfter
--   Retry      retry.go: shouldRetry, backoff, retryAfterFrom, sleep
--   Json       the values of encoding/json where the code takes `any`, and how objects are put together
--   Message    message.go: roles, parts, messages
--   Request    request.go: the request and Validate
--   Response   response.go: usage, stop reasons, the response
--   Client     skyl.go: options, New, and the loops of Complete, Stream and Models
--   Sse        internal/sse/sse.go: the reader of server-sent events; Sse/Pump is the loop over its
--              events that the decoders have in common
--   Stream     stream.go and observedstream.go: CollectStream and the observed stream
--   Result     a value or an error, as the adapters return them
--   Httpx      internal/httpx/httpx.go: bounds, the overlay of options, the network as a parameter
--   Oai        internal/oai/oai.go: the adapter for the chat-completions format
--   Openai     provider/openai and provider/openaicompat: the options and constructors in front of Oai
--   Gemini     provider/gemini/gemini.go: the adapter for generateContent, with the list of models
--   Anthropic  provider/anthropic/anthropic.go: the adapter in front of the SDK of Anthropic
--   Otel       otel/otel.go: what is recorded of an event
--   Cassette   internal/cassette/cassette.go: recording an exchange over HTTP, and its replay
--   Sandbox    internal/sandbox: sandbox.go, tools.go and structured.go, the model that answers there
--   Gateway    gateway/api.go (Wire, Requests), gateway/config.go (Environment) and gateway/server.go:
--              building a server and letting callers in, the handlers (Chat, Streaming), the middleware
--              and routes (Routing), and the heartbeat beside a stream (Heartbeat)
--
-- Correspondence. A Go function has one definition of its name in snake case; a part of a function
-- that has a definition of its own is mapped to its lines. Mutable state is passed on: `next` on a
-- reader returns the reader behind the call. A Go error is `GoError`, with `nil` for none. A Go text
-- is a string; bytes that are read one by one are a list of their codes. A pointer that may be nil is
-- an `Option`. The loop over attempts stands in Client/Loop.antt once, with the four things in which
-- the three methods differ as fields of `Operation`; Client/Operations.antt fills them in. The gateway's
-- clients are a type of their own, and the fields of `Upstream` are what they do. The handler of a
-- stream and its heartbeat are two state machines over one `Session`, of which `fire` makes one move
-- at a time, in any order; a write is made byte by byte, so that others may move in the middle of it.
--
-- What the code asks of others is an argument. `Surroundings` holds, for each attempt, the reply of
-- the provider under its deadline, the caller's context after the attempt and during the wait, which
-- of the timer and the context comes first, the random choice and the measured time.
-- `HeaderLibrary` holds what ParseRetryAfter takes from the library of Go, `Oai.Library` and
-- `Gemini.Library` the decoding of JSON into the wire types, base64 and printing, `Network` what an
-- exchange gives back, `Sdk` the client, the accumulator and the errors of Anthropic's package,
-- `Environment` the variables of the process with the readers of Go's library, `Chi` the router, the
-- identifiers and the limit of chi, `Transport` what net/http sends, and `HeaderNames` what it makes
-- of the names of headers, `Writer` which payloads encoding/json can encode, the text of an error,
-- and which writes reach the caller of a stream. A stream is a `StreamOps`, the operations of Go's
-- interface on a type of states; the stream of Anthropic's SDK is the list of the events that it
-- gives.
--
-- Bounds and fuel. `attempts` has one unit of fuel for each allowed attempt, which is the bound that
-- the code's loop has. `drain` and `relay` have fuel for the calls of `Next`, so that one unit more
-- than the events of the stream is enough. The loops of the stream decoders have one unit for each
-- line that their reader holds and one for the end, since every event takes a line. The list of
-- Gemini's models has fuel for its pages, a word of the sandbox for its pieces, and a schema there
-- for the nine depths to which the code goes. A time.Duration is an integer whose 64-bit wrap-around
-- is written out where the code shifts and adds, and so is a count of tokens. A line of a stream is
-- bounded by 8 MiB; lemmas take any bound.
--
-- A JSON object is `Fields`, a list of keys and values; `Json.Maps` has the laws of reading and writing.
--
-- Not modelled: the text that (*Error).Error prints; goroutines and mutexes elsewhere than in the
-- gateway's stream (each operation is one step there); the network itself; panics and their recovery;
-- gateway/telemetry.go and the instruments of otel, which only put third-party parts together; the
-- transport of otel; the handlers of internal/sandbox, which print the formats of three providers for
-- integration tests; the files of internal/cassette and the suites that tests use; and the commands,
-- which are flags, signals and sockets.
pub mod Anthropic
pub mod Cassette
pub mod Client
pub mod Errors
pub mod Gateway
pub mod Gemini
pub mod Httpx
pub mod Json
pub mod Message
pub mod Oai
pub mod Openai
pub mod Otel
pub mod Prelude
pub mod Request
pub mod Response
pub mod Result
pub mod Retry
pub mod Sandbox
pub mod Sse
pub mod Stream
