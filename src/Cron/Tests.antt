-- ===== src/Cron/Tests.antt =====
-- One cron, its claims and its fires.
use knowlega.Base.{true, false, none, some, List, [], ◌∷◌, ◌≡◌, refl, All}
use knowlega.Base.Int.{pos}
use knowlega.Cron.Document.{boolean, integer, raw, scalar, Document, document}
use knowlega.Cron.Table.{
  CronRecord, get, updated, create, put, set_enabled, claim_slot, unclaim_slot, list_due,
}
use knowlega.Cron.FireLog.{Entry, record_fire}
use knowlega.Cron.Claims.{Claimant, winners, one_winner, Restored, unclaim_slot-claim_slot}
use knowlega.Cron.Projection.{Projected, Call, call_put, call_claim, call_merge, run}
use knowlega.Cron.Runs.{run-Projected}
use knowlega.Cron.FireLaws.{Fired, after_fire, log_in, record_fire-Fired}

abbrev daily : Document
daily =
    ("title", scalar (raw "\"daily\""))
    ∷ ("nextFireAt", scalar (integer (pos 100)))
    ∷ ("enabled", scalar (boolean true))
    ∷ []

abbrev row : CronRecord
row = record {
  id = "c";
  json = document daily;
  enabled = true;
  archived = false;
  next_fire_at = some (pos 100);
  last_fired_at = none;
  created_at = pos 7;
  updated_at = pos 7;
}

first_put : put (pos 7) "c" (document daily) [] ≡ (row ∷ [], some row)
unfolding put
first_put = refl

claimed_answer :
    (claim_slot (pos 8) "c" (pos 100) (pos 101) (some (pos 200)) (row ∷ [])).1 ≡ updated true
unfolding claim_slot
claimed_answer = refl

disabled :
    (claim_slot (pos 8) "c" (pos 100) (pos 101) none (set_enabled (pos 8) "c" false (row ∷ [])).0).1
    ≡ updated false
unfolding claim_slot set_enabled
disabled = refl

due : list_due (pos 100) (pos 0) (row ∷ []) ≡ row ∷ []
unfolding list_due
due = refl

-- A cron that was created with a time that its document does not have loses it when it is enabled.
abbrev untimed : Document
untimed = ("title", scalar (raw "\"daily\"")) ∷ []

created_then_enabled :
    list_due
      (pos 100)
      (pos 0)
      (set_enabled (pos 8) "c" true (create (pos 7) "c" (document untimed) (some (pos 50)) []).0).0
    ≡ []
unfolding list_due set_enabled create
created_then_enabled = refl

abbrev first : Claimant
first = record { now = pos 8; fired_at = pos 101; next_fire_at = some (pos 200) }

one_winner_example : winners "c" (pos 100) (first ∷ first ∷ first ∷ []) (row ∷ []) ≡ 1
one_winner_example =
    one_winner "c" (pos 100) first (first ∷ first ∷ []) (row ∷ []) row daily (unfold get in refl)
      refl refl refl

unclaim_slot-claim_slot_example : Restored (pos 9) "c" row daily (
    unclaim_slot
      (pos 9)
      "c"
      (pos 100)
      (pos 101)
      none
      (claim_slot (pos 8) "c" (pos 100) (pos 101) (some (pos 200)) (row ∷ [])).0)
unclaim_slot-claim_slot_example =
    unclaim_slot-claim_slot (pos 8) (pos 9) (pos 100) (pos 101) (some (pos 200)) "c" (row ∷ []) row
      daily (unfold get in refl) refl refl refl refl

abbrev calls : List Call
calls =
    call_put (pos 7) "c" (document daily)
    ∷ call_claim (pos 8) "c" (pos 100) (pos 101) (some (pos 200))
    ∷ call_merge (pos 9) "c" (document (("archived", scalar (boolean true)) ∷ [])) ("title" ∷ [])
    ∷ []

run-Projected_example : All Projected (run calls [])
run-Projected_example = run-Projected calls [] tt

abbrev fire : Entry
fire = ("fireKey", raw "\"k\"") ∷ ("firedAt", integer (pos 101)) ∷ []

record_fire-Fired_example :
    Fired "c"
      (raw "\"k\"")
      (after_fire (raw "\"k\"") (raw "\"k\"") (log_in daily))
      (record_fire (pos 9) "c" (some fire) (row ∷ []))
record_fire-Fired_example =
    record_fire-Fired (pos 9) "c" (raw "\"k\"") (raw "\"k\"") fire (row ∷ []) row daily refl
      (unfold get in refl) refl
