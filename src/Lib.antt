-- ===== src/Lib.antt =====
-- Verification library of pod-os-go-client, the Go client of Pod-OS.
--
-- A client exchanges framed messages with a gateway over TCP. message/encoder.go turns a message into
-- a frame: seven length fields of nine bytes, the To and From addresses, the header and the payload.
-- connection/client.go writes the frame (Send) and reads one back (Receive), finding its end by the
-- length prefix. message/decoder.go takes the frame apart, and message/intents.go names what kind of
-- message it is. message/raw_edit.go changes the From address of a frame in place. connection/pool.go
-- keeps connections for reuse and connection/retry.go repeats a call that fails. message/validate.go
-- checks a message before it is encoded and the bytes of one after; message/responses.go reads the
-- payload of a reply. client.go lets many callers wait for their replies on one connection.
--
-- Files and code:
--   Prelude           lists over the native numbers, signed integers, a result with panics
--   Text, Strconv     what the source uses of the packages strings, fmt and strconv
--   Wire              the frame: Frame, max_message_size (MaxMessageSizeBytes)
--   Wire/Encoder      EncodeMessage from the address checks on, forceASCII: encode_frame
--   Wire/SizeParam    decodeMessageSizeParam
--   Wire/Decoder      decodeHeader, DecodeMessage: decode_lengths, decode_segments, parse_payload (the
--                     switch on the intent, which may panic), decode_message
--   Wire/Response     transformHeaderMaptoMessageStruct: what a response takes from the header map
--   Wire/RawEdit      ReplaceFromInRawMessage: replace_from_in_raw_message
--   Intents           newIntentTypes, commandToIntent, IntentFromMessageTypeAndCommand
--   Message           the structs of a request: Message, EventFields, LinkFields, the options
--   Message/Format    SerializeTagValue, FormatBatchEventsPayload and the other formatters
--   Message/Header    the header functions of message/header.go; Decode reads their texts back
--   Message/Construct ConstructHeader: construct_header
--   Message/Encode    EncodeMessage as a whole: encode_message, with its panics
--   Message/Encode/Batches  what EncodeMessage reads of the batches of the Neural Memory fields
--   Connection/Socket the socket of a peer: the arrivals that Conn.Read delivers
--   Connection/Receive   isValidLengthPrefix and Receive: receive
--   Connection/Send      Send: send
--   Connection/EndToEnd  encoding, sending, receiving and decoding together
--   Connection/Pool      ChannelPool and PoolConn, every operation one step; Lending has a pool that has
--                        been initialised and its clients
--   Connection/Retry     NewRetry and Retry
--   Readiness            waitForAIPReady of readiness/gate.go, which probes an actor until it answers
--   Client               the maps pending and pendingWithRaw of client.go as a step function on events:
--                        a call registers, a message is routed, the connection is lost, a call returns
--   Client/Protocol      what the client promises each caller; Preserved, Closing and Routing show it
--   Client/ReceiveLoop   a turn of receiveLoop: when it ends, goes on, or fails the waiting callers; and
--                        the reconnection after it, during which other callers register
--   Client/Reconnect     attemptReconnection: its attempts, its pauses, the states it reports, and the
--                        address of the connection, which Close of connection/client.go forgets
--   Validate/Report      ValidationError and its constructors, isNameAtGateway
--   Validate/Request     the checks of the requests; Batch has validatePayload and the batch requests
--   Validate/Envelope    validateEnvelope, the table intentValidators, Message.Validate
--   Validate/Sends       validation and EncodeMessage together; LinkPanics has the gap between them
--   Validate/Wire        ValidateRawMessage; Header and its Command have validateWireHeader
--   Payload              the tags of a reply (message/tag_format.go) and parseTabDelimitedLine
--   Payload/Event        decodeEventFields of message/decoder.go
--   Payload/Batch        the replies to StoreBatchEvents and StoreBatchLinks
--   Payload/Reply        the switch of DecodeMessage that calls them; message/batch_status.go
--
-- State is passed on explicitly: Receive takes the socket and returns what is left of it, with the flag
-- `connected`; a pool operation takes a pool and returns one. A Go slice out of range is `panic`, an
-- error is `err`. The network, the peer, the clock and the context are lists of what they do, of any
-- length: the arrivals on the socket, a Tick for each round of Receive, a Write for each Conn.Write, a
-- Probe for each attempt before the gate's deadline.
-- A list that ends before the call returns gives `blocked` or `unfinished`. Receive needs a round for
-- each byte at most, since a round of a live connection reads something; Send needs three writes for
-- each byte at most, since it gives up at the third write in a row that takes nothing. A call of the clock and the printing of a float are
-- parameters of the encoder, the record Externals. A length is a whole number where the code's guards keep
-- it from being negative, and signed where they do not.
--
-- A goroutine of the client, between two points where it waits, is one event; the events come in any
-- order. The lookup of a channel and the send into it are one event: in between only callers run, and
-- no caller closes a channel. A reconnection and the receive loop are given what each round meets; a
-- list of rounds that ends too soon leaves a reconnection without a result, and as many rounds as the
-- attempts allowed are enough. The entries of a Go map that is ranged over come in any order.
--
-- Not modelled: the link records of GetEvent and the records of GetEventsForTags, the texts of a
-- violation and its explanation by a language model, dialling and identifying, the keepalive and
-- the closing of the channels by StopReceiver after its time-out, the probe messages, configuration,
-- logging, tracing and the socket options.
pub mod Prelude
pub mod Text
pub mod Strconv
pub mod Wire
pub mod Intents
pub mod Connection
pub mod Readiness
pub mod Message
pub mod Client
pub mod Validate
pub mod Payload
