-- ===== src/Lib.antt =====
-- Verification of the realtime voice core of the service SDK, of its command protocol and of its chat
-- controller.
--
-- A client talks to a realtime session over a local channel. The channel takes PCM frames and JSON
-- messages; its input window puts frames in order and hands them to the session, and its flow control
-- sends the audio of the session back as far as the client acknowledges it. The session decodes what
-- the provider sends by an adapter, checks it against the state of the conversation, and queues events
-- for its consumer, and one terminal event. Items of a conversation are named by an identity
-- table that outlives a connection in the recovery state.
--
-- Common: Boolean tests, lists, sets, dictionaries, results and the exceptions of the program.
-- Bytes: big-endian numbers as bytes.
-- Framing: `LocalPcmFrame`, `encode_pcm_frame` and `decode_pcm_frame` of
--   src/simple_harness_service/realtime/local.py. Sequence: `SequenceWindow` of the same file.
-- Window: `_InputWindow` of src/simple_harness_service/realtime/local_channel.py. OutputFlow:
--   `_send_output_chunk` and `_handle_output_ack` of the same file. Outputs: the audio branches of its
--   `_forward_events`.
-- Call: the rest of `LocalRealtimeChannelController` of the same file. Control holds the messages of the
--   client, Input the batches of input audio, Channel what is sent and how a call fails, Reasons the
--   reasons of its end, Runs its steps in any order, Stream its input frames one after the other.
-- Text, Identity, Recovery: `_identity`, `RealtimeIdentityTable` and `RealtimeRecoveryState` of
--   src/simple_harness_service/realtime/recovery.py, and its snapshots: Saved writes them, Snapshot reads them.
-- Events: the records of src/simple_harness_service/realtime/contracts.py and ports.py.
-- Codec: `encode_frame`, `decode_payload` and `FrameDecoder` of src/simple_harness_service/codec.py.
-- Commands: `_closed_outcome` of src/simple_harness_service/service.py, and `CommandSnapshot` of
--   src/simple_harness_service/contracts.py.
-- Session: `ManagedRealtimeSession` of src/simple_harness_service/realtime/session.py. State holds its
--   attributes, Queue `_emit`, `_emit_terminal_safe` and `events`, Terminal the claim of the terminal
--   and the controlled close, Batch and Apply `_apply`, Receive `_receive_loop`, Requests `send_audio`
--   and `cancel_response`, Tools the results of tool calls, Context
--   the messages put into the context. A function of the source that returns a
--   Boolean and may fail is a `Step` of Flow. Conversation, Accounting and Ending hold the invariants.
-- Chat: `ChatController` of src/simple_harness_service/chat_controller.py. State holds its attributes,
--   Actions `dispatch` and the cancel protocol, Observe `observe_once` and `observe_until`, Reconcile
--   `_reconcile`, Input `dispatch_text`, and Runs the steps of a controller in any order.
-- Tests: concrete inputs.
--
-- Integers of the source are natural numbers: those that the code tests for being positive come from
-- unsigned fields or are counters that only grow or shrink by what was added. Loops over a buffer or a
-- set of pending numbers run on fuel: the length of the buffer for `FrameDecoder`, as each round takes
-- at least four bytes, and the number of pending entries for the windows, as each round removes one.
-- `observe_until` runs on fuel, too: each round sleeps for its delay, which is at least one tick of its deadline.
-- The division in the test of the playback position is multiplied out, without the rounding of floats.
--
-- An asynchronous operation is split at its awaits. The tasks of a session interleave as the steps of
-- `Session.Ending.Runs.Transition`: rounds of the receiver and of the consumer, the two halves of a
-- controlled close, failures from elsewhere, a newer generation, changes of the shared identity table.
--
-- A payload may be processed after the terminal was published: the test of `_receive_loop` stands
-- before the await of `receive_text`, and the receiver is cancelled after the connection was closed.
--
-- A chat controller is driven as terminal_ui.py drives it: actions, ends of waits and callbacks of tasks
-- come in any order, and one observer at a time reads snapshots, while a run is active. The ids that its
-- factory makes, the time and the answers of the client are inputs of the steps; which snapshots the
-- client may answer for which command is a relation `Serves`, of which nothing is assumed.
--
-- A handler of a call is one step, with what the session and the channel answer as inputs; what the owner
-- of the terminal sends at the end is tried message by message, between the steps of other parts.
--
-- Not modelled: the adapters and the relay control codec (what they decode is an input, and a decoded
-- batch of a provider holds no `SessionClosed`, which no adapter emits), the JSON text (an interface
-- with its round trip), the check of tool arguments against a schema (a parameter), time, diagnostics
-- and failure contexts, which nothing reads back, and the locks, since each locked part is one step.
pub mod Common
pub mod Bytes
pub mod Framing
pub mod Window
pub mod OutputFlow
pub mod Sequence
pub mod Outputs
pub mod Text
pub mod Identity
pub mod Recovery
pub mod Commands
pub mod Call
pub mod Chat
pub mod Events
pub mod Codec
pub mod Session
pub mod Tests
