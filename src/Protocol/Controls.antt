-- ===== src/Protocol/Controls.antt =====
-- The events of grix_hermes/protocol.py that control the queue: cancel, clear, hold, edit, reorder
-- and the query of a snapshot. Each raises a ValueError where an id is missing.
use grix_hermes_python.Prelude.{String, Bool, true, List, [], ◌∷◌, ◌==◌, if◌then◌else◌}
use grix_hermes_python.Prelude.Dict.{Dict}
use grix_hermes_python.Prelude.Int.{ℤ, pos}
use grix_hermes_python.Json.{Value, value_at, list_of}
use grix_hermes_python.Protocol.Names.{clamp_int, normalize_id}
use grix_hermes_python.Protocol.Packets.{Result, require}
use grix_hermes_python.Protocol.Events.{id_at, text_at, normalize_message_text}

pub record GrixEventCancelEvent : Type 0 where
  pub event_id : String
  pub session_id : String
  pub raw : Dict Value

pub record GrixQueueClearEvent : Type 0 where
  pub session_id : String
  pub raw : Dict Value

pub record GrixEventHoldEvent : Type 0 where
  pub event_id : String
  pub session_id : String
  pub hold : Bool
  pub reason : String
  pub ttl_ms : ℤ
  pub raw : Dict Value

pub record GrixQueueEditEvent : Type 0 where
  pub event_id : String
  pub session_id : String
  pub text : String
  pub raw : Dict Value

pub record GrixQueueReorderEvent : Type 0 where
  pub session_id : String
  pub ordered_event_ids : List String
  pub raw : Dict Value

pub record GrixQueueSnapshotQueryEvent : Type 0 where
  pub session_id : String
  pub raw : Dict Value

unfoldable pub normalize_event_cancel : Dict Value → Result GrixEventCancelEvent
normalize_event_cancel payload =
    require (id_at "event_id" payload) "event_cancel requires event_id" (
      require (id_at "session_id" payload) "event_cancel requires session_id" (
        Result.returns (record {
          event_id = id_at "event_id" payload;
          session_id = id_at "session_id" payload;
          raw = payload;
        })))

unfoldable pub normalize_queue_clear : Dict Value → Result GrixQueueClearEvent
normalize_queue_clear payload =
    require (id_at "session_id" payload) "queue_clear requires session_id"
      (Result.returns (record { session_id = id_at "session_id" payload; raw = payload }))

-- value is not False
abbrev is_not_false : Value → Bool
is_not_false (Value.boolean b) = b
is_not_false _ = true

abbrev pub longest_hold : ℤ
longest_hold = pos 86_400_000

unfoldable pub normalize_event_hold : Dict Value → Result GrixEventHoldEvent
normalize_event_hold payload = require (id_at "event_id" payload) "event_hold requires event_id" (
    require (id_at "session_id" payload) "event_hold requires session_id" (
      Result.returns (record {
        event_id = id_at "event_id" payload;
        session_id = id_at "session_id" payload;
        hold = is_not_false (value_at "hold" payload);
        reason = text_at "reason" payload;
        ttl_ms = clamp_int (value_at "ttl_ms" payload) (pos 0) (pos 0) longest_hold;
        raw = payload;
      })))

unfoldable pub normalize_queue_edit : Dict Value → Result GrixQueueEditEvent
normalize_queue_edit payload = require (id_at "event_id" payload) "queue_edit requires event_id" (
    require (id_at "session_id" payload) "queue_edit requires session_id" (
      Result.returns (record {
        event_id = id_at "event_id" payload;
        session_id = id_at "session_id" payload;
        text = normalize_message_text (value_at "content" payload);
        raw = payload;
      })))

-- The ids of the entries that have one, in order.
unfoldable pub ids_of : List Value → List String
ids_of [] = []
ids_of (entry ∷ rest) =
    let ids = ids_of rest in if normalize_id entry == "" then ids else normalize_id entry ∷ ids

abbrev listed_ids : Value → List String
listed_ids (Value.array vs) = ids_of (list_of vs)
listed_ids _ = []

unfoldable pub normalize_queue_reorder : Dict Value → Result GrixQueueReorderEvent
normalize_queue_reorder payload =
    require (id_at "session_id" payload) "queue_reorder requires session_id" (
      Result.returns (record {
        session_id = id_at "session_id" payload;
        ordered_event_ids = listed_ids (value_at "ordered_event_ids" payload);
        raw = payload;
      }))

unfoldable pub normalize_queue_snapshot_query : Dict Value → Result GrixQueueSnapshotQueryEvent
normalize_queue_snapshot_query payload =
    require (id_at "session_id" payload) "queue_snapshot_query requires session_id"
      (Result.returns (record { session_id = id_at "session_id" payload; raw = payload }))
