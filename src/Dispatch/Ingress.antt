-- ===== src/Dispatch/Ingress.antt =====
-- The events as they come in: `RouteAndEnqueueEvent` of
-- cys_core/application/use_cases/route_and_enqueue.py. The publisher of raw events is a port.
use cys_agi.Prelude.{
  String, Bool, false, ◌&&◌, Option, none, some, List, [], ◌∷◌, ◌++◌, ◌or_else◌, string_eq,
  if◌then◌else◌,
}
use cys_agi.Floats.{FloatOps}
use cys_agi.Json.{Fields}
use cys_agi.Events.{SecurityEvent, EventType, Severity, RoutingDecision}
use cys_agi.Router.{route}
use cys_agi.Worker.Station.{Station}
use cys_agi.Dispatch.{DispatchPorts, dispatch_sync, dispatch_async}

-- The arguments of `RouteAndEnqueueEvent.execute`, and the id that an event without one gets.
pub record Arrival : Type 0 where
  pub event_type : EventType
  pub payload : Fields
  pub severity : Severity
  pub source : String
  pub event_id : Option String
  pub correlation_id : String
  pub tenant_id : String
  pub fresh_id : String

-- `_build_event`
unfoldable pub build_event : Arrival → SecurityEvent
build_event a = record {
  id = elim a.event_id [ none ↦ a.fresh_id | some id ↦ id or_else a.fresh_id ];
  type = a.event_type;
  source = a.source;
  severity = a.severity;
  payload = a.payload;
  tenant_id = a.tenant_id;
  correlation_id = a.correlation_id;
}

-- What the ingress changes: the station, the count of events by type, and the raw events that were
-- published. `publishes` tells whether the publisher, if it is set, takes an event.
pub record Ingress (F : Type 0) : Type 0 where
  pub station : Station F
  pub ingested : List EventType
  pub raw_events : List SecurityEvent

pub record IngressPorts (F : Type 0) : Type 0 where
  pub dispatch : DispatchPorts F
  pub use_kafka : Bool
  pub publishes : Option (SecurityEvent → Bool)

module _ {F : Type 0} ⦃fl : FloatOps F⦄ (i : IngressPorts F) where
  -- the event went to Kafka
  unfoldable pub publish_raw : SecurityEvent → Bool
  publish_raw event = i.use_kafka && elim i.publishes [ none ↦ false | some takes ↦ takes event ]

  -- `execute` and `aexecute`, from the dispatcher
  unfoldable pub receive_event :
      (SecurityEvent → Fields → Station F → (RoutingDecision × List String) × Station F)
      → Arrival
      → Ingress F
      → (SecurityEvent × (RoutingDecision × List String)) × Ingress F
  unfolding build_event publish_raw
  receive_event dispatcher a g =
      let event = build_event a in
      let counted : Ingress F = record g { ingested = g.ingested ++ event.type ∷ [] } in
      if publish_raw event
      then (
        (event, (route i.dispatch.notify_severities i.dispatch.plans event, [])),
        record counted { raw_events = g.raw_events ++ event ∷ [] },
      )
      else (let (answer, s) = dispatcher event a.payload g.station in
          ((event, answer), record counted { station = s }))

  -- `RouteAndEnqueueEvent.execute`
  abbrev pub route_and_enqueue :
      Arrival → Ingress F → (SecurityEvent × (RoutingDecision × List String)) × Ingress F
  route_and_enqueue = receive_event (dispatch_sync i.dispatch)

  -- `RouteAndEnqueueEvent.aexecute`
  abbrev pub aroute_and_enqueue :
      Arrival → Ingress F → (SecurityEvent × (RoutingDecision × List String)) × Ingress F
  aroute_and_enqueue = receive_event (dispatch_async i.dispatch)
