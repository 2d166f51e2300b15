-- ===== src/Lib.antt =====
-- formulatel: telemetry of the game F1 23, taken from UDP packets, sent over MQTT as messages, and
-- stored in TimescaleDB.
--
-- Two programs share the work, a third sets up the tenants (formulatel/cmd/admin), and a fourth
-- replays captured packets (formulatel/cmd/replay). Ingest (formulatel/cmd/ingest) listens for packets
-- and transforms them: `F123PacketListener` puts each datagram in a channel, `F123PacketTransformer`
-- takes it from there, reads the header and the body, and sends messages on one channel for each kind of
-- data, from which a publisher takes them and publishes them to one topic. Persist
-- (formulatel/cmd/persist) receives the messages, and `BatchRouter` passes each to the `TableBatcher` of
-- its table, which buffers rows and copies them to the database in batches.
--
-- The files, and the code that they are about:
--   F123.Model, F123.Codec: formulatel/f123/model.go. A struct of the game is a record with its
--     fields in order, and its decoder is what `binary.Read` does with it (Wire). Codec is what
--     the game writes, and is no code of the repository.
--   F123.Buffer, F123.Listener, F123.Config: formulatel/f123/f123.go, `F123PacketBuffer`,
--     `F123PacketListener` and `F123IngestConfig`.
--   F123.LatestLaps: formulatel/f123/latest_lapdata.go.
--   F123.Transformer: formulatel/f123/f123.go, `F123PacketTransformer`. Normalize and History are the
--     normalizations, Route is `Route`, Capture is `handleCapture`, Consume is `handlePacket` and
--     `Consume`. Delivery and Stream say what whole packets and streams of packets do. Meaning is a
--     specification of the transformer that knows no bytes, buffers and branches.
--   Telemetry: formulatel/internal/genproto/telemetry.pb.go, the messages and their getters.
--   Timescale.Rows, Timescale.Batcher, Timescale.Copy, Timescale.Router:
--     formulatel/internal/timescale/batcher.go, the row builders, `TableBatcher`, `writeBatch` with
--     `copyFromSource`, and `BatchRouter`.
--   Timescale.System: the same file at run time, the goroutines of `Add`, the channels and the workers
--     as a relation between states. Invariant is what holds in each state, Counts and Fed follow the
--     messages, Safety, Settling and Shutdown are about the runs.
--   Timescale.Laps: the same file, `WriteLapRow`, with the unique key of
--     migrations/20260531000000_create_session_lap_data_table.up.sql.
--   Timescale.Config: formulatel/internal/timescale/config.go.
--   Admin: formulatel/cmd/admin/tenants.go, `CreateOrg`, `CreateUser`, `CreateDashboard` and the
--     commands; what Grafana, the database and the generators answer is a parameter (`Answers`,
--     `DashboardAnswers`).
--   Ingest: formulatel/cmd/ingest/main.go, the configuration, the topics, the start (Action, LogLevel) and
--     the goroutines of the listener and the transformer (Goroutines). Action.Asked says what the flags
--     and the environment ask for, without the code. Ingest.Publisher: formulatel/cmd/ingest/mqtt_v3.go.
--   Mqtt: formulatel/internal/mqttutil/mqttutil.go. Filters is what the programs rely on of the broker,
--     and Access relates the topics of ingest, the access lists of admin and the subscription of persist.
--   Persist: formulatel/cmd/persist/main.go, its start (Start, and Start.Asked, which says what the
--     configuration asks for, without the code) and its handler; Receive is about what comes to the
--     handler from the publishers, and Stored about the way from there to the batches.
--   Replay: formulatel/cmd/replay/main.go. Persistor: formulatel/formulatel.go.
--   Pipeline: the programs together, from a struct of the game to the row of its table, and from
--     the packets to the calls of `Add`.
--   Common, Text, Wire: lists, integers, floats, texts and the bytes of integers. Tests: examples.
--
-- How the code is modelled. A number is a natural number, and a conversion to a smaller type keeps
-- its remainder; a float is its bit pattern, and `uint32` of one is computed from it (Common.Float).
-- A pointer is an `Option`, a map an association list. The transformer is a function from its state
-- to an outcome and a state: it returns or panics, and what was done before a panic stays done. The
-- clock, the capture files and the conversion of a float that does not fit are parameters
-- (`Environment`). What a `select` may meet is an event, and a run of one goroutine is a function of a
-- list of events: a theorem about all lists is about all orders. Goroutines that share channels are a
-- step relation, and a theorem about all reachable states is about all interleavings. A mutex that is
-- left locked and a worker that waits for it are states of the worker, and a publication that never
-- completes is one of the publisher, whose `Wait` does not look at the context. The order in which Go
-- walks over a map is a parameter (Timescale.Copy). The start of a command is a function of what the
-- libraries answer (`Surroundings`), and a ticker or a channel that Go refuses to make is a panic;
-- protojson is a pair of functions of which the second undoes the first where a theorem needs it, and the
-- broker is a function that matches filters as the MQTT standard says.
--
-- Bounds. The loops are recursions on the list of events or of laps. The loop over laps counts down
-- the number of laps, and `drain` reads a source with fuel, for which the number of its rows is
-- enough. `settle` makes steps with fuel, for which the messages in the channels and twice the waiting
-- sends are enough. The decoders read bytes that are natural numbers, so that they are defined on all
-- inputs; where a theorem needs the width of an integer it asks for it (`InWidth`, `FitsSigned`). The
-- level of the log is read from ASCII texts.
--
-- Not modelled: logs and spans; what the transformer does while the channel of a publisher is full; the
-- MQTT client, the database driver and Grafana, which are outside; the parse of flags and of the
-- environment (formulatel/cmd/admin/main.go and the declaration of the flags of ingest), and the walk
-- over the directory of formulatel/cmd/replay.
pub mod Common
pub mod Text
pub mod Wire
pub mod Telemetry
pub mod F123
pub mod Timescale
pub mod Mqtt
pub mod Ingest
pub mod Admin
pub mod Persist
pub mod Persistor
pub mod Replay
pub mod Pipeline
pub mod Tests
