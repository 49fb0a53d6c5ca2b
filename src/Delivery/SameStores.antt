-- ===== src/Delivery/SameStores.antt =====
-- What the scheduling of stop results in grix_hermes/terminal_delivery.py does to the stores.
use grix_hermes_python.Prelude.{
  String, ◌≡◌, refl, ◌∙◌, Bool, true, List, [], ◌∷◌, map, arith, if_elim,
}
use grix_hermes_python.Json.{Value, value_at}
use grix_hermes_python.Json.Equality.{value_eq}
use grix_hermes_python.Persistence.StopResults.{StopResultOutboxEntry}
use grix_hermes_python.Delivery.Controller.{Controller, Client, spawn}
use grix_hermes_python.Delivery.Schedule.{
  schedule_stop_result_delivery, schedule_stops, schedule_stop_results_for_event,
}

-- The stores are the same.
pub record HasSameStores (c d : Controller) : Type 0 where
  pub outbox : d.terminal_outbox ≡ c.terminal_outbox
  pub tokens : d.terminal_commit_tokens ≡ c.terminal_commit_tokens
  pub stops : d.stop_result_outbox ≡ c.stop_result_outbox
  pub committed : d.terminal_committed ≡ c.terminal_committed

delivery-HasSameStores :
    (client : Client) (entry : StopResultOutboxEntry) (b : Bool) (c : Controller)
    → HasSameStores c (schedule_stop_result_delivery client entry b c)
unfolding schedule_stop_result_delivery spawn
delivery-HasSameStores client entry b c = record {
  outbox = ground arith;
  tokens = ground arith;
  stops = ground arith;
  committed = ground arith;
}

both : (a b c : Controller) → HasSameStores a b → HasSameStores b c → HasSameStores a c
both a b c h k = record {
  outbox = k.outbox ∙ h.outbox;
  tokens = k.tokens ∙ h.tokens;
  stops = k.stops ∙ h.stops;
  committed = k.committed ∙ h.committed;
}

unmoved : (c : Controller) → HasSameStores c c
unmoved c = record { outbox = refl; tokens = refl; stops = refl; committed = refl }

stops-HasSameStores :
    (client : Client) (event_id : String) (entries : List StopResultOutboxEntry) (c : Controller)
    → HasSameStores c (schedule_stops client event_id entries c)
unfolding schedule_stops
stops-HasSameStores client event_id [] c = unmoved c
stops-HasSameStores client event_id (entry ∷ rest) c =
    let test = value_eq (value_at "event_id" entry.payload) (Value.text event_id) in
    both c _ _
      (if_elim (HasSameStores c) test _ _ (λ _. delivery-HasSameStores client entry true c)
        (λ _. unmoved c))
      (stops-HasSameStores client event_id rest _)

pub event-HasSameStores :
    (client : Client) (event_id : String) (c : Controller)
    → HasSameStores c (schedule_stop_results_for_event client event_id c)
unfolding schedule_stop_results_for_event
event-HasSameStores client event_id c =
    stops-HasSameStores client event_id (map (λ e. e.1) c.stop_result_outbox.pending) c
