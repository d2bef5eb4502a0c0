-- ===== src/Runtime/Tests.antt =====
-- A queue of two tasks, of which one runs.
use knowlega.Base.{
  ◌+◌, String, ◌≡◌, ◌≢◌, refl, Bool, true, false, not, some, none, List, [], ◌∷◌, arith, ◌==◌,
  eq_iff, All,
}
use mathlib.Core.Bool.{false≢true}
use knowlega.Base.Text.{trim_space}
use knowlega.Base.Int.{pos}
use knowlega.Runtime.Task.{RuntimeTask, EnqueueInput, ClaimedTask, pending, running}
use knowlega.Runtime.Store.{Table, ok, enqueue, new_row, unix_milli, kind_matches}
use knowlega.Runtime.Claim.{claim, claim_checked, lease_to}
use knowlega.Runtime.Finish.{heartbeat, complete, release, acknowledge_cancellation, fail}
use knowlega.Runtime.Rows.{InRows}
use knowlega.Runtime.Steps.{Call, enqueues, claims, completes, cancels, run, Inv}
use knowlega.Runtime.Invariant.{run-Inv, empty-Inv}
use knowlega.Runtime.Fencing.{stale_lease}
use knowlega.Runtime.Ready.{Ready, Before, claim-least}
use knowlega.Runtime.Idempotence.{enqueue_again}
use knowlega.Runtime.Lifecycle.{Simulated}
use knowlega.Runtime.Simulation.{run-Simulated}

abbrev idle : RuntimeTask
idle = record {
  id = "j1";
  kind = "ingest";
  payload_version = 1;
  payload = "{}";
  scope_id = none;
  actor_id = none;
  idempotency_key = some "k";
  serial_key = some "s";
  status = pending;
  priority = pos 0;
  available_at = 1;
  attempts = 0;
  max_attempts = 3;
  lease_token = none;
  lease_owner = none;
  lease_expires_at = none;
  cancel_requested = false;
  result = none;
  last_error = none;
  created_at = 1;
  updated_at = 1;
  started_at = none;
  finished_at = none;
}

abbrev held : RuntimeTask
held = record idle {
  id = "j2";
  idempotency_key = none;
  status = running;
  attempts = 1;
  lease_token = some "old";
  lease_owner = some "w";
  lease_expires_at = some 9;
  started_at = some 2;
}

abbrev input : EnqueueInput
input = record {
  id = "j1";
  kind = "ingest";
  payload_version = 1;
  payload = "{}";
  scope_id = "";
  actor_id = "";
  idempotency_key = "k";
  serial_key = "s";
  priority = pos 0;
  available_at = none;
  max_attempts = 3;
}

abbrev is_json : String → Bool
is_json s = not (s == "")

abbrev unlocked : String → Bool
unlocked id = false

abbrev calls : List Call
calls =
    enqueues is_json 1000000 "u1" input
    ∷ claims unlocked [] 2000000 "token" "worker" ("ingest" ∷ []) 5000000
    ∷ completes is_json 3000000 "j1" "token" "{}"
    ∷ cancels 4000000 "j1"
    ∷ []

run-Inv_example : Inv (run calls [])
run-Inv_example = run-Inv calls

run-Simulated_example : Simulated calls []
run-Simulated_example = run-Simulated calls [] empty-Inv

abbrev rows : Table
rows = idle ∷ held ∷ []

stale_lease_example :
    (heartbeat 8 9 "j2" "new" 5 rows ≡ (rows, ok (false, false)))
    × (complete is_json 8 "j2" "new" "{}" rows ≡ (rows, ok false))
    × (release 8 "j2" "new" rows ≡ (rows, false))
    × (acknowledge_cancellation 8 "j2" "new" rows ≡ (rows, false))
    × (fail 8 9 "j2" "new" "late" true 7 rows ≡ (rows, (false, false)))
stale_lease_example =
    stale_lease is_json 8 9 "j2" "new" "{}" "late" true 5 7 rows refl (omega arith) refl

abbrev free_rows : Table
free_rows = idle ∷ []

abbrev claimed : ClaimedTask
claimed = record {
  task = record idle {
    status = running;
    attempts = 1;
    lease_token = some "t";
    lease_owner = some "w";
    lease_expires_at = some 7;
    started_at = some 3;
    updated_at = 3;
  };
  lease_token = "t";
  lease_owner = "w";
}

claims_idle :
    (claim unlocked free_rows 3000000 "t" " w" ("ingest" ∷ []) 4000000 free_rows).1
    ≡ ok (some claimed)
unfolding claim trim_space kind_matches
claims_idle = refl

claim-least_example :
    (t : RuntimeTask) × InRows t free_rows
    × Ready unlocked free_rows (unix_milli 3000000) ("ingest" ∷ []) t
    × (claimed.task
        ≡ lease_to "t"
            (trim_space " w")
            (unix_milli 3000000 + unix_milli 4000000)
            (unix_milli 3000000)
            t)
    × All
        (λ u. ¬ (Ready unlocked free_rows (unix_milli 3000000) ("ingest" ∷ []) u × Before u t))
        free_rows
claim-least_example =
    claim-least unlocked free_rows 3000000 "t" " w" ("ingest" ∷ []) 4000000 free_rows claimed
      claims_idle

-- Another worker's snapshot does not show the row that runs, but the index does.
claims_none :
    (claim_checked unlocked free_rows 3000000 "t" "w" ("ingest" ∷ []) 4000000 rows).1 ≡ ok none
unfolding claim_checked
claims_none = refl

abbrev first_rows : Table
first_rows = new_row 1000000 "j1" "ingest" input ∷ []

first_enqueue : enqueue is_json 1000000 "u1" input [] ≡ (first_rows, ok ("j1", false))
unfolding enqueue trim_space kind_matches new_row
first_enqueue = refl

k_named : input.idempotency_key ≢ ""
k_named e = absurd (false≢true ((eq_iff "k" "").1 e))

enqueue_again_example :
    enqueue is_json 5000000 "u2" (record input { payload = "[]" }) first_rows
    ≡ (first_rows, ok ("j1", true))
enqueue_again_example =
    enqueue_again is_json 1000000 5000000 "u1" "u2" input (record input { payload = "[]" }) []
      first_rows "j1" false first_enqueue k_named refl refl refl
