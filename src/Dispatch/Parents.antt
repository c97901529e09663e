-- ===== src/Dispatch/Parents.antt =====
-- Which investigation the jobs of an event read (cys_core/application/use_cases/dispatch_event.py,
-- cys_core/application/use_cases/run_worker_job.py).
use cys_agi.Prelude.{String, ◌≡◌, ◌∙◌, true, some, truthy, string_eq, arith}
use cys_agi.Floats.{FloatOps}
use cys_agi.Json.{Fields, str, lookup}
use cys_agi.Events.{SecurityEvent}
use cys_agi.Spawn.{WorkerJob}
use cys_agi.Memory.{query_investigation}
use cys_agi.Worker.Station.{Station, Ports}
use cys_agi.Worker.Steps.{memory_investigation_id, prior_entries}
use cys_agi.Dispatch.{DispatchPorts, dispatch_sync}
use cys_agi.Dispatch.Jobs.{Adds, Adds-map, dispatch_sync-Adds}

reads_parent :
    {F : Type 0} ⦃fl : FloatOps F⦄ (p : Ports F) (j : WorkerJob F) (key : String)
    → lookup j.payload "parent_correlation_key" ≡ some (str key)
    → truthy key ≡ true
    → memory_investigation_id p j ≡ key
unfolding memory_investigation_id
reads_parent p j key named given = ground arith

-- A payload that comes with an event and names a parent decides, in `dispatch_sync`, which
-- investigation's findings the event's jobs read from the memory: any one of the event's tenant,
-- whatever the event's own investigation is.
pub dispatch_sync_reads_parent :
    {F : Type 0} ⦃fl : FloatOps F⦄ (d : DispatchPorts F) (event : SecurityEvent) (payload : Fields)
    (key : String) (p : Ports F) (s : Station F)
    → lookup payload "parent_correlation_key" ≡ some (str key)
    → truthy key ≡ true
    → Adds
        (λ j.
          (memory_investigation_id p j ≡ key)
          × ((t : Station F)
              → prior_entries p j t
                ≡ query_investigation p.validator p.now event.tenant_id key 10
                    (some event.tenant_id)
                    t.memory))
        s
        (dispatch_sync d event payload s)
unfolding prior_entries
dispatch_sync_reads_parent d event payload key p s named given =
    Adds-map d event payload s (dispatch_sync d event payload s)
      (λ j h.
        let chosen : memory_investigation_id p j ≡ key =
          reads_parent p j key (h.parent ∙ named) given in
        (
          chosen,
          λ t i.
              query_investigation p.validator p.now (h.tenant i) (chosen i) 10 (some (h.tenant i))
                t.memory,
        ))
      (dispatch_sync-Adds d event payload s)
