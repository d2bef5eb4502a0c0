-- ===== src/Worker/Tests.antt =====
-- A worker's rounds, tasks and events.
use knowlega.Base.{◌≡◌, refl, true, false, [], ◌∷◌, ◌++◌}
use knowlega.Worker.{
  PoolConfig, new_pool, pool, result, nothing, complete, process, claim_error, claim_none,
  claim_task, wait, process_task, worker_rounds, append_event, appended,
}
use knowlega.Worker.Settle.{good, lost_beat, process-outage}

abbrev config : PoolConfig
config = record {
  name = "ingest";
  kinds = "ingest" ∷ [];
  concurrency = 2;
  lease_ttl = 30;
  heartbeat_interval = 10;
  poll_interval = 4;
  max_claim_backoff = 20;
}

rounds :
    worker_rounds config 0 (claim_error ∷ claim_error ∷ claim_none ∷ claim_task ∷ [])
    ≡ wait 4 ∷ wait 8 ∷ wait 4 ∷ process_task ∷ []
unfolding worker_rounds
rounds = refl

second_event : append_event 1 true false ≡ (2, appended)
unfolding append_event
second_event = refl

result_kept : process (good ∷ []) false (result "r") ≡ complete "r"
unfolding process
result_kept = refl

process-outage_example :
    process
      ((good ∷ []) ++ (lost_beat false ∷ lost_beat false ∷ lost_beat true ∷ good ∷ []))
      false
      (result "r")
    ≡ nothing
process-outage_example =
    process-outage (good ∷ []) (good ∷ []) false false true false (result "r")
      ((refl, refl, refl), tt)

made : new_pool true true config ≡ pool config
unfolding new_pool
made = refl
