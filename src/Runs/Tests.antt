-- ===== src/Runs/Tests.antt =====
-- Runs of two sessions.
use mathlib.Core.Bool.{false≢true}
use knowlega.Base.{String, Bool, ◌≡◌, refl, inl, true, false, some, [], ◌∷◌, eq_iff}
use knowlega.Runs.Run.{
  Owner, Run, ok, err, session_busy, session_violated, new_run, enqueue_run, begin_run,
}
use knowlega.Runs.Lease.{
  claimable, oldest_run, lease_row, claim_run, complete_run, complete_leased, reap_runs,
}
use knowlega.Runs.Signals.{Signals, signal_if_active, accepted, not_found}
use knowlega.Runs.Inv.{RunsInv, all_calls, enqueues, claims, completes}
use knowlega.Runs.Histories.{all_calls-RunsInv}
use knowlega.Runs.Blocked.{claim_blocked}
use knowlega.Runs.Repeats.{complete_again}

abbrev any_json : String → Bool
any_json s = true

abbrev no_lock : String → Bool
no_lock id = false

abbrev first : Run
first = new_run 10 "a" Owner.node "s1" "{}" "" 0

abbrev second : Run
second = new_run 20 "b" Owner.node "s2" "{}" "" 0

abbrev inline : Run
inline = begin_run 5 (new_run 4 "g" Owner.go "s1" "{}" "" 0)

enqueued :
    enqueue_run any_json 10 "a" "" Owner.node "s1" "{}" "" 0 [] ≡ (first ∷ [], ok ("a", false))
unfolding enqueue_run
enqueued = refl

abbrev taken : Run
taken = lease_row "t" "w" 130 30 first

claimed :
    claim_run no_lock (first ∷ second ∷ []) 30 "t" "w" 100 (first ∷ second ∷ [])
    ≡ (taken ∷ second ∷ [], ok (some taken))
unfolding claim_run new_run
claimed = refl

reaped : (reap_runs (λ t. "{}") 131 0 5 (taken ∷ []) (taken ∷ [], [])).1 ≡ (taken, true) ∷ []
unfolding reap_runs lease_row new_run
reaped = refl

abbrev signals : Signals
signals = record { rows = []; next_id = 1 }

steered : (signal_if_active 40 "a" "{}" (some ("steer", "go on")) (taken ∷ []) signals).1 ≡ accepted
unfolding signal_if_active lease_row new_run
steered = refl

steered_unknown :
    (signal_if_active 40 "z" "{}" (some ("steer", "go on")) (taken ∷ []) signals).1 ≡ not_found
unfolding signal_if_active lease_row new_run
steered_unknown = refl

empty-RunsInv : RunsInv []
empty-RunsInv = record { runs_ok = tt; exclusive = unfold session_violated in refl; distinct = tt }

all_calls-RunsInv_example : RunsInv (
    all_calls
      (enqueues any_json 10 "a" "" Owner.node "s1" "{}" "" 0
        ∷ claims no_lock [] 30 "t" "w" 100
        ∷ completes any_json 40 "a" "t" "k" "{}"
        ∷ [])
      [])
all_calls-RunsInv_example =
    all_calls-RunsInv
      (enqueues any_json 10 "a" "" Owner.node "s1" "{}" "" 0
        ∷ claims no_lock [] 30 "t" "w" 100
        ∷ completes any_json 40 "a" "t" "k" "{}"
        ∷ [])
      [] empty-RunsInv

-- The older run waits for a session that the Go runtime uses, and the other one is not claimed.
claim_blocked_example :
    claim_run no_lock (inline ∷ first ∷ second ∷ []) 30 "t" "w" 100 (inline ∷ first ∷ second ∷ [])
    ≡ (inline ∷ first ∷ second ∷ [], err session_busy)
claim_blocked_example =
    claim_blocked no_lock 30 "t" "w" 100 first inline (inline ∷ first ∷ second ∷ [])
      (unfold new_run begin_run in ((refl, (refl, tt)), ((refl, tt), (tt, tt))))
      (unfold oldest_run claimable new_run begin_run in refl) (inl refl)
      (unfold new_run begin_run in refl) (unfold new_run begin_run in refl)
      (λ h. false≢true ((eq_iff "w" "").1 h))

complete_again_example :
    complete_leased any_json 60 "a" "t" "k" "[]" (complete_run 50 "k" "{}" taken ∷ second ∷ [])
    ≡ (complete_run 50 "k" "{}" taken ∷ second ∷ [], ok true)
complete_again_example =
    complete_again any_json 50 60 "a" "t" "k" "{}" "[]" (taken ∷ second ∷ [])
      (complete_run 50 "k" "{}" taken ∷ second ∷ []) refl
      (unfold complete_leased new_run lease_row complete_run in refl)
