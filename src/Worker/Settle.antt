-- ===== src/Worker/Settle.antt =====
-- Which call ends a task, over every sequence of heartbeats.
use knowlega.Base.{◌≡◌, refl, Bool, true, false, List, [], ◌∷◌, ◌++◌, arith, All}
use knowlega.Worker.{Beat, watch, Handled, nothing, process}

-- A beat that keeps the lease, and a beat that the store failed to answer.
abbrev pub good : Beat
good = record { accepted = true; requested = false; error = false }

abbrev pub lost_beat : Bool → Beat
lost_beat requested = record { accepted = false; requested = requested; error = true }

abbrev pub IsGood : Beat → Type 0
IsGood b = (b.accepted ≡ true) × (b.requested ≡ false) × (b.error ≡ false)

watch_after : (beats rest : List Beat) → All IsGood beats → watch 0 (beats ++ rest) ≡ watch 0 rest
unfolding watch
watch_after [] rest h = refl
watch_after (b ∷ beats) rest h = ground (arith, watch_after beats rest h.1)

-- After any good heartbeats, three unanswered ones in a row lose the lease: whatever else happens,
-- the worker makes no further call for the task.
pub process-outage :
    (beats rest : List Beat) (a b c stopped : Bool) (handled : Handled)
    → All IsGood beats
    → process (beats ++ (lost_beat a ∷ lost_beat b ∷ lost_beat c ∷ rest)) stopped handled ≡ nothing
unfolding process
process-outage beats rest a b c stopped handled h =
    rw (watch_after beats (lost_beat a ∷ lost_beat b ∷ lost_beat c ∷ rest) h, process)
      (unfold watch in refl)

-- One or two unanswered heartbeats with a good one after them change nothing in how the task ends.
pub process-short_outage :
    (beats rest : List Beat) (a b stopped : Bool) (handled : Handled)
    → All IsGood beats
    → (process (beats ++ (lost_beat a ∷ good ∷ rest)) stopped handled
        ≡ process rest stopped handled)
      × (process (beats ++ (lost_beat a ∷ lost_beat b ∷ good ∷ rest)) stopped handled
          ≡ process rest stopped handled)
unfolding process
process-short_outage beats rest a b stopped handled h = (
  rw (watch_after beats (lost_beat a ∷ good ∷ rest) h, process) (unfold watch in refl),
  rw (watch_after beats (lost_beat a ∷ lost_beat b ∷ good ∷ rest) h, process)
      (unfold watch in refl),
)
