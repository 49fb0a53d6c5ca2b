-- ===== src/Lib.antt =====
-- Verification of the core of grix-hermes, the Grix/aibot platform adapter of the Hermes agent:
-- the queue that decides which event runs, and the stores that carry a result over a crash.
--
-- The protocol helpers (grix_hermes/protocol.py) read settings, packets and events. The adapter
-- (grix_hermes/adapter.py) hands each inbound event to the event queue, whose callbacks deliver it
-- to the agent and report its state. A terminal result is put into the terminal outbox, which
-- writes it to disk before the first packet is sent; the terminal delivery sends it until it is
-- acknowledged or rejected. Settled ids and commit tokens are kept beside the outbox.
--
-- EventQueue, of grix_hermes/event_queue.py. `EventQueue.State.EventQueue` has the fields of the
-- class `EventQueue`: `_running` and `_queued` are lists of items, the three dicts of timer
-- handles are association lists from ids to delays, and each call of `on_deliver` or
-- `on_state_change` is appended to `effects` with the item as it was at the call. A method `f` is
-- the definition `f`: Query has the queries, Timers `_arm_timeout` and its kin, Notify
-- `_notify_item` and `_notify_positions`, Drain `_start`, `_drain`, `_schedule_drain`, `pause` and
-- `resume`, Hold `hold`, `release`, `edit` and `build_preview`, Submit `submit`, `complete`, the
-- progress calls and `_run_timeout_event`, Remove `cancel_queued`, `remove_queued`, `clear`,
-- `drain_all_queued`, `destroy` and `_timeout_event`, Reorder `reorder`. `Step.Call` lists what
-- may happen: a call of the user, an armed timer that fires, the scheduled drain that runs;
-- `Step.run` plays a list of these, so every interleaving is a list. Since the callbacks are
-- called from the one thread of the loop and hand their work on, a callback does not change the
-- queue during a call. The index loop of `_drain` is a recursion over what is behind the index,
-- with what is before it kept in `Scan`. Lanes has the abstract view: a queue to each group.
-- Invariant says what holds between two calls, with one child for each group of methods; Progress
-- is about wake-ups; Submission, Wishes and Order are about `submit` and `reorder`.
--
-- Persistence, of grix_hermes/persistence. File has the environment of a call: the time, and
-- whether a write succeeds. The stores carry in `saved` what their file holds; a store whose path
-- is the empty text, which writes nothing, is one without a path. Payload has the JSON objects
-- that are stored, Fields what the `to_dict` and `_load` methods share. TerminalOutbox,
-- StopResults, Committed, Tokens and ToolbarModels are terminal_outbox.py, stop_result_outbox.py,
-- terminal_committed_store.py, terminal_commit_token_store.py and toolbar_model_store.py; a try
-- block around `_persist` is `commit`, which takes the state that the write is for and the state
-- that the handler restores. The child Load of the first, the second and the fourth has `to_dict`
-- and `_load`; RoundTrip and Soundness lead to Restart, which starts a store over the file that a
-- history left. Copies by `deepcopy` and `clone` are the values themselves, since no value is
-- changed in place.
--
-- Delivery, of grix_hermes/terminal_delivery.py. Controller has the state of
-- `TerminalDeliveryController` over the stores, with the deliveries that `_spawn` started as a
-- list, and what the client answers at one moment. The code is asynchronous: what runs between two
-- `await`s is one definition, with the answers of the client, of the network and of the file
-- system as arguments, so anything may happen between two of them. Send is `send_event_result` and
-- the tokens, SendStop `send_event_stop_result`, Schedule the scheduling and the replay, Flight
-- the frame of a delivery, Attempt the parts of `_send_event_result_reliable`, Loop their loop (a
-- `Round` has what one attempt meets, the steps of other tasks included), StopAttempt those of
-- `_send_stop_result_reliable`. FirstWins, Acknowledged, Settling and StopSettling are about
-- these.
--
-- Protocol, of grix_hermes/protocol.py with the constants of grix_hermes/contract.py. Names has
-- `clamp_int`, `normalize_text`, `normalize_id`, `normalize_names` and `_ensure_names`, Settings
-- `build_connection_config` and `resolve_event_queue_settings`, Auth `build_auth_payload`, Packets
-- `build_packet`, `encode_packet`, `decode_packet` and the fields of payloads, Events and Controls
-- the `normalize_...` functions of the events that are no messages, Cards `resolve_card_action`
-- with `sanitize_card_action_tag` of grix_hermes/compat.py in Sanitize, Inbound
-- `normalize_inbound_message`. A payload is read from JSON, so a candidate of a card action is the
-- structured content itself only where the generator yields that. `Packets.Result` is a value or
-- the text of the ValueError, with "TypeError" for that error. What the machine answers, the
-- installed version, the sanitizer of the host, `json.dumps` and `json.loads` are arguments.
-- Clamp, RoundTrip, Distinct, Capabilities, Message and Checked are about these.
--
-- Adapter, of grix_hermes/adapter.py. QueueSettings has the configuration that
-- `GrixAdapter.__init__` gives to its event queue; QueueBounds puts it together with Protocol and
-- EventQueue. QueueHandlers and SessionHandlers have the handlers of the packets that hold, edit,
-- reorder and clear: they change the queue before they first await, and what they send afterwards
-- is a list, with the client as an argument that says which calls return. Owners and OwnersApart
-- are about the events of other owners.
--
-- Json has what `json.loads` gives and what Python's `str`, `repr`, `bool`, `int` and `==` make of
-- it. Its numbers are integers.
--
-- Prelude has what the parts share: Python's integers, Python's dict, `str.strip`, `split` and
-- `join`, and list lemmas.
--
-- Bounds. Times, counts and limits are natural numbers; the settings for which the code tests `<=
-- 0` are 0 here. Python's integers have no width. The only fuel is that of `Json.digits`, which
-- prints a number: a number has no more digits than its value plus one.
--
-- Not modelled: `EventQueue.session_refs`; numbers of JSON that are no integers; letters that are
-- not ASCII in `str.lower` and `isalnum`; foreign JSON in the files of the settled events and the
-- toolbar models; the file-system calls of atomic_json.py, of which the stores need that a write
-- replaces the whole file or raises and leaves it; the provisional results that no code records;
-- what other tasks do while a delivery without the negotiated capability awaits the reconnect; and
-- the parts that are mostly input and output (the transport, the rest of the adapter, the tools,
-- the skills).
mod Prelude
pub mod Json
pub mod EventQueue
pub mod Persistence
pub mod Delivery
pub mod Adapter
pub mod Protocol
