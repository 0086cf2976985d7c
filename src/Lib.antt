-- ===== src/Lib.antt =====
-- Verification library for the xiaozhi-esp32 server, which talks to voice devices.
--
-- The parts of the program that are modelled, and their files:
--   Pool      internal/util/resource_pool.go: the pool that VAD, ASR, LLM and TTS providers are
--             borrowed from. `try_create`, `acquire` and `release` in Pool.antt are
--             tryCreateResource, AcquireWithTimeout and Release; the steps of the loop of
--             AcquireWithTimeout are `acquire_step`, between which others may act, and
--             Pool/Calls.antt has the histories of several calls; `new_pool`, `resize`, `cleanup`
--             and `close` in Pool/Upkeep.antt are NewResourcePool, Resize,
--             cleanupIdleResources and Close. Pooled resources are cells of a heap.
--   Queue     internal/util/queue.go: the bounded queue between goroutines. Push, Pop,
--             ClearAndDrain and Close are made of operations on channels, between which others
--             may act.
--   Sentence  internal/util/sentence.go: cutting the text of a language model into sentences.
--             Sentence/Smart.antt has findNextSplitPoint and ExtractSmartSentences.
--   Stream    internal/domain/chat/streamtransform: the pipeline that the stream of a model runs
--             through. Stream/Segmenter.antt is internal/app/server/chat/plugins/
--             output_segmenter.go, which is a client of Sentence.
--   Udp       internal/app/server/mqtt_udp/udp.go and udp_server.go: sessions and packets, and in
--             Udp/Server.antt the maps from connection ids and addresses to sessions.
--   Ogg       internal/util/ogg_opus.go: Opus packets in the pages of an Ogg stream.
--   Metrics   internal/domain/chat/hooks/statistic_plugin.go: the measured turns of a session.
--   Hooks     internal/pkg/hooks/hub.go: Hooks/Executor.antt has the queue of tasks with its workers
--             and the callers of Submit, Hooks/Hub.antt the registration of hooks and Emit, whose
--             asynchronous hooks are tasks of the executor.
--   Media     internal/app/server/chat/media_player.go: the music player of a device. Media.antt and
--             Media/Control.antt have the runtime and what requests do to it, Media/Append.antt the
--             growth of playlists, Media/Playback.antt
--             and Media/Streaming.antt the goroutine of a playback as steps, Media/System.antt the
--             histories in which both interleave, and Media/Gate.antt
--             internal/app/server/chat/realtime_media_gate.go, which asks the player.
--   Tts       internal/app/server/chat/tts.go: the speech output of a session. Tts/Items.antt has the
--             queue of items and the exclusive playback of media, Tts/Synthesis.antt handleTts,
--             handleStreamTts and handleDualStreamTts, Tts/Sender.antt with Tts/Sender/Loop.antt and
--             Tts/Sender/History.antt the loops that send the elements of the audio queue and the
--             interrupts, Tts/Cycle.antt the metrics of a turn.
--   Dialogue  internal/data/client/client.go: the messages of a dialogue and their alignment.
--   Parallel  internal/util/workqueue/parallelizer.go: pieces of work among workers.
--   Auth      internal/app/server/auth/auth.go: sessions of clients and tokens.
--   Common    lists, association lists, signed integers and tests that the others share.
--
-- A method that mutates its receiver is a function from the old state to the result and the new
-- state; a method under a lock is one step. Code that is not part of the repository is a
-- parameter: factories and resources of the pool, the tables of package unicode, the cipher in
-- counter mode, the hexadecimal encoding, the checksum of pages, transformers
-- other than the segmenter, handlers of hooks, the texts' and URLs' functions of the media player,
-- the answers of its bridge and of its audio streams, the answers of providers of speech and of the
-- client, the errors of contexts, the clock.
--
-- Bounds: sequence numbers and lengths in packets wrap around at 32 and 16 bits, the numbers of items,
-- cycles and audio generations at 64. The loop of
-- ExtractSmartSentences has fuel for one round more than the text has characters, of which each
-- round takes at least one, and the loop of buildOggSegments as much as the packet is long;
-- the loop of Resize takes fuel as an argument. AcquireWithTimeout runs over the steps and
-- WaitRemoteAddr and the loops of Push and Pop over the rounds that a scheduler gives them.
--
-- Not modelled: sockets, the MQTT broker and websockets; the clients of speech and language services;
-- configuration, the manager's backend and front end; the chat session itself; handleTextResponse and
-- the goroutine that feeds texts to a provider with two streams;
-- the plugins' lifecycles; interleavings of the UDP server's methods within one another.
pub mod Auth
pub mod Common
pub mod Dialogue
pub mod Hooks
pub mod Media
pub mod Metrics
pub mod Ogg
pub mod Parallel
pub mod Pool
pub mod Queue
pub mod Sentence
pub mod Stream
pub mod Tts
pub mod Udp
