-- ===== src/Lib.antt =====
-- Griffino-Go, the Go SDK for plugins of the Griffino platform.
--
-- A plugin makes a Client, registers handlers with it, and serves until it is closed. The client
-- speaks to the platform through a Transport; the one that is delivered speaks to RabbitMQ. The parts
-- and the files that model them:
--
--   Errors        errors.go. Sentinels, the SDK error, what errors.Is finds through Unwrap.
--   Config        config.go. The defaults, and the configuration that the environment gives.
--   Lifecycle     lifecycle.go. A channel is the number under which it was made, and the channels that
--                 were closed are listed. Each method holds the mutex, so it is one step.
--   Models        models.go and the requests of transport.go. Structs are records, a pointer or a map
--                 that may be nil is an Option.
--   Json          values of type `any`, as package encoding/json reads and writes them; Json/Wire says
--                 what stays of a value on its way over the wire.
--   Codec         internal/transport/codec.go. EncodeJSON and DecodeJSON over the codec of the standard
--                 library, a parameter; Codec/MessageId is NewMessageID over sixteen random bytes.
--   Envelopes     internal/transport/envelopes.go. The bodies of the messages.
--   Context       context.go. contextFromMessage, the way from a message to what a handler sees.
--   RoutingKeys   the routing keys and queue names of rabbitmq.go.
--   Rabbit        the transport of rabbitmq.go. Rabbit/Broker has its state, World, which also records
--                 the calls to the broker in their order, the handlers that were run and the goroutines
--                 that were started. The AMQP library is a function from the calls so far and the next
--                 call to its error, so it may answer in any way. Rabbit/Connection is Start and Close,
--                 Rabbit/Requests Invoke and Dispatch, Rabbit/Consumers the start of the consumers,
--                 Rabbit/Deliveries the handling of a delivery and Rabbit/Loops the loops of the
--                 goroutines over what their select takes. Rabbit/Replies is the part of Invoke,
--                 consumeReplies and Close that works on the waiting replies, as a step relation over
--                 their interleavings.
--   Client        client.go. Client/New is New with its options and the registrations, Client/Requests
--                 the options of Invoke and Dispatch, Client/Serve the handler runner, Start, Close and
--                 Run, over any Transport (Client/Interface), which is a record of operations on a
--                 state.
--   Declarative   declarative.go and declarative_parse.go. Declarative/Reflect is what package reflect
--                 tells of a type, Declarative/Tags the texts of a tag, Declarative/Fields one field and
--                 Declarative/Models a whole struct, on the functions of package strings in Strings.
--   Generator     generator.go. Generator/Manifest, Generator/Configs and Generator/BootYaml are the
--                 data of the files, Generator/Files the functions that write them; the state of the
--                 disk and the operations of package os (Generator/Disk) are parameters.
--   Artifacts     artifacts.go, on the parser, the generator and the fields of a Client.
--   Redis         internal/redisstore/store.go, on the client of go-redis, a parameter.
--   DeepSeek      examples/deepseek/plugin/plugin.go, on the parts above.
--   Platform      the RabbitMQ transport as the Transport of a client.
--
-- A method that changes state takes the state and gives its result with the new state. A panic of
-- `close` on a closed channel is `none` in Lifecycle and Client/Serve; a panic of a handler is an
-- outcome of the handler. Loops run over lists and texts; only the search for a free name in
-- backupExistingFile has no bound of its own and takes fuel, where `none` is that the fuel ran out: fuel
-- for the numbers up to the first name that is not taken is enough. Its index does not wrap around,
-- which it could do behind 2 ^ 63 taken names.
--
-- strconv.Atoi is written out with the range of a 64-bit int (Base/Number), so the port and the Redis
-- database that the environment gives are in range; a timeout is a number of nanoseconds, which the
-- source only compares with 0 and divides, so it keeps its range too. Texts are sequences of
-- characters: a Go string that is not valid UTF-8 is not modelled. What a log line says is not
-- modelled, nor are the contexts that are handed to the AMQP library. What Run waits for and what a
-- select takes are parameters.
--
-- A float64 is kept as the text of its literal, so strconv.ParseFloat is a parameter that gives a text.
-- The files that are written hold texts, whose bytes are their UTF-8.
--
-- A handler is a function of its context: one that calls Invoke, Dispatch or Close of the client while
-- it runs has an effect on the transport that is not modelled, so what is said of deliveries is said
-- of handlers that do not.
--
-- Not modelled: cmd/griffino, which prints help texts, and the programs of the examples, which
-- call what is modelled and hold no logic of their own.
pub mod Base
pub mod Errors
pub mod Json
pub mod Config
pub mod Envelopes
pub mod Codec
pub mod RoutingKeys
pub mod Models
pub mod Rabbit
pub mod Strings
pub mod Declarative
pub mod Generator
pub mod Artifacts
pub mod Redis
pub mod DeepSeek
pub mod Client
pub mod Platform
pub mod Tests
pub mod Context
pub mod Lifecycle
