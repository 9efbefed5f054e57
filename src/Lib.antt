-- ===== src/Lib.antt =====
-- AgenSense: devices, their tokens and configuration, where they are stored, and the events that a
-- device and a gateway exchange.
--
-- Prelude has what the other parts share: Boolean tests, maps, sorting, integers, text, and methods
-- that change a state and may fail.
--
-- Device is internal/device. Device.Model is model.go; Device.Tables has the six maps of a
-- repository. Device.Memory is memory_repository.go, each method a function of the tables that
-- returns its result and the tables after it: Directory has instances, devices and profiles,
-- Configs the snapshots and the versions, Tokens the tokens and their index. Device.Repository is
-- the interface of repository.go with what its clients rely on. Device.Service is service.go, over
-- any repository; Device.Seed is seed.go and SeedDemoData of internal/store/file_repository.go.
--
-- Store is internal/store/file_repository.go. Store.State has the file state with persistedCopy and
-- normalizeState, Store.Disk what the file uses of encoding/json and of the file system,
-- Store.Repository opening, flushing (Flush) and the methods (Methods), and their place under the
-- interface of Device.Repository (Refinement).
--
-- Protocol is internal/protocol: types.go is in Protocol.Types and Protocol.Validate, envelope.go
-- in Protocol.Envelope, stream_tracker.go in Protocol.Stream.
--
-- Gateway is internal/gateway/handler.go: the loop over the frames of one connection is in
-- Gateway.Handler, and its proofs in Turn and Invariant. It decodes events and tracks streams with
-- the definitions of Protocol.
--
-- Gateway.Wsconn is internal/gateway/wsconn/conn.go: readFrame and writeFrame over bytes, ReadFrame
-- in Messages, with Bits, RoundTrip, Client and Total for the proofs. Gateway.Sink is what the
-- voice pipeline writes to the connection, with its proofs in Speech.
--
-- Provider is internal/provider/types.go: the types of a voice turn (Types) and the interfaces of
-- the providers (Clients). Session is internal/session/pipeline.go: Run is in Session.Pipeline,
-- over any providers and any sink; Session.Script has what a turn does to its sink as a list of
-- calls, Streams, Speech and Refinement the proofs about the sink, Traces those about the traces.
--
-- Trace is internal/debugtrace/store.go: Trace.Store has the store, Trace.Handle the methods of a
-- handle (Events, Segments and Stages), Trace.Audio the limited buffers and the WAV files,
-- Trace.Changes all calls as one type, and Bounds, Invariant and Deltas the proofs. Saytts.Wav is
-- PCMFromWAV of internal/saytts/saytts.go.
--
-- Voicews is internal/voicews/session.go. Values has the configuration of a session, State its
-- state and what its handlers do outside it. Input has handleAudioStart, with handleAudioChunk in
-- Chunks and handleAudioStop and cancelInput in Stops; Segments and Invariant have what they keep
-- true, Utterance what reaches the transcription. Response has what starts an answer and
-- runFinalASR (Final), Echoes the proof that the session does not answer itself. Echo has the
-- recent speech and how it is recognised, with Words, Remembered and Laws for the proofs, and
-- Subsequence the longest common subsequence that it uses, with its specification in Common.
-- Segmenter cuts a reply into what is spoken. Memory is the conversation memory: Options, Tokens,
-- Store with its compression, Compression and Remembered with the proofs, Context the messages that
-- go to the model and Budget their bound. Mcp has the tools of a client and, in Proposals, the
-- proposed calls. Lifecycle has the beginning and the end of a session, Update session.update, and
-- Events the other events with the loop of run; Laws beside them has the proofs.
--
-- Control is internal/service/device_control.go, the control plane over Device.Service: Plane has
-- its methods, Access who passes, AsInterface its place under the interface of the gateway's loop.
--
-- Voicelang is internal/voicelang/language.go and Textnorm internal/textnorm/chinese.go.
--
-- The service calls the repository, the control plane calls the service, and the gateway and the
-- HTTP API call the control plane, which the gateway has as an interface of the two methods that
-- its loop calls. A repository over a file changes its maps as the one in memory does and then
-- writes the file. The gateway runs the pipeline with its sink; the pipeline calls the providers,
-- asks Voicelang for an instruction, and tells the store of traces. A voice session tracks its
-- stream with the tracker of Protocol, and what it does to traces and providers is a list of
-- outputs.
--
-- A locked method is one step, so a run of concurrent calls is the sequence of its locked steps.
-- The context argument is not read by any modelled code and is left out. Numbers of type int and
-- int64 are integers that do not wrap, but for the timeout, the threshold and the budget of the
-- conversation memory, which client numbers reach: those wrap as the code's do; a time counts from
-- time.Time's zero value. Three definitions use fuel: the loop of PCMFromWAV, with a round for each
-- byte of the file, of which it takes eight at least, ReadFrame, with a round more than there are
-- bytes to read, of which each takes some, and the digits of a printed number, with one round more
-- than the number.
--
-- Parameters, as the code of other packages: SHA-256 with its print (hash_credential), the clock
-- and the random bytes (in the state of the service, and of the repository over a file),
-- encoding/json (JsonCodec, PayloadJson, EnvelopeJson), the raw JSON texts of the seed, the file
-- system, whose calls succeed or fail as a list of faults says, JSON values and floating-point
-- numbers in payloads, and in the gateway which writes to the connection succeed. In the gateway's
-- loop the voice pipeline is a parameter by whether it returns an error. Other parameters:
-- strings.ToLower, maps of JSON values, net/url, the converter of gocc, filepath.Base, the float64
-- levels of a segment, the texts of errors, and what the providers answer; a stream of a provider
-- ends with the first error of its callback. A write to the connection of a voice session succeeds
-- or fails as the frames of the loop say; only session.update and response.cancel answer with its
-- error. In Voicews further: the letter cases and classes of package unicode, the level of a chunk
-- and the duration of bytes as float64 values, os.Getenv, strconv.Atoi, the texts of times,
-- json.Unmarshal of a proposal, and what the transcription and the model answer, and, of the
-- registry of provider profiles and the factory of clients, whether they know a profile and build a
-- client. Scores of an echo are quotients of counts, compared exactly. A goroutine that a handler
-- starts is an output of it.
--
-- Not modelled: the commands, the HTTP server, the set-up of a WebSocket connection, the local
-- control plane and inference of internal/service, the implementations of the providers, the
-- streams of runResponse and runRealtimeTTS and the upgrade of the voice WebSocket session,
-- logging, the start-up configuration and the text of most error messages.
mod Prelude
pub mod Device
pub mod Store
pub mod Protocol
pub mod Gateway
pub mod Provider
pub mod Trace
pub mod Saytts
pub mod Voicelang
pub mod Textnorm
pub mod Session
pub mod Control
pub mod Voicews
pub mod Tests
