-- ===== src/Cron/Projection.antt =====
-- The columns of a cron are what its document says, through every method but Create.
use knowlega.Base.{
  String, Bool, Option, some, List, [], ◌∷◌, ◌==◌, ◌≡◌, subst, inl, inr, Bool-cases, All, keep_if,
}
use knowlega.Base.Int.{ℤ}
use knowlega.Cron.Document.{Payload, null_document, cron_fields}
use knowlega.Cron.Table.{
  CronRecord, get, replace_row, put, put_if_absent, merge, set_enabled, delete, take_cron,
  claim_slot, unclaim_slot, mark_fired,
}
use knowlega.Cron.FireLog.{Entry, record_fire}

-- The document has the columns of the row as its fields.
abbrev pub Projected : CronRecord → Type 0
Projected r =
    (created : Option ℤ) × (cron_fields r.json
      ≡ some (record {
        enabled = r.enabled;
        archived = r.archived;
        next_fire_at = r.next_fire_at;
        last_fired_at = r.last_fired_at;
        created = created;
      }))

-- A call of a method that changes the table.
pub data Call : Type 0 where
  call_put : ℤ → String → Payload → Call
  call_put_if_absent : ℤ → String → Payload → Call
  call_merge : ℤ → String → Payload → List String → Call
  call_set_enabled : ℤ → String → Bool → Call
  call_delete : String → Call
  call_take : String → Call
  call_claim : ℤ → String → ℤ → ℤ → Option ℤ → Call
  call_unclaim : ℤ → String → ℤ → ℤ → Option ℤ → Call
  call_mark : ℤ → String → ℤ → Option ℤ → Call
  call_record : ℤ → String → Option Entry → Call

unfoldable pub step : Call → List CronRecord → List CronRecord
step (call_put now id payload) rows = (put now id payload rows).0
step (call_put_if_absent now id payload) rows = (put_if_absent now id payload rows).0
step (call_merge now id patch ks) rows = (merge now id patch ks rows).0
step (call_set_enabled now id enabled) rows = (set_enabled now id enabled rows).0
step (call_delete id) rows = delete id rows
step (call_take id) rows = (take_cron id rows).0
step (call_claim now id at fired next) rows = (claim_slot now id at fired next rows).0
step (call_unclaim now id at fired prior) rows = (unclaim_slot now id at fired prior rows).0
step (call_mark now id fired next) rows = (mark_fired now id fired next rows).0
step (call_record now id entry) rows = (record_fire now id entry rows).0

unfoldable pub run : List Call → List CronRecord → List CronRecord
run [] rows = rows
run (c ∷ calls) rows = run calls (step c rows)

pub All-get :
    (id : String) (r : CronRecord) (rows : List CronRecord)
    → All Projected rows
    → get id rows ≡ some r
    → Projected r
unfolding get
All-get id r [] h found = cc
All-get id r (q ∷ rows) h found = elim (Bool-cases (id == q.id)) [
  | inl e ↦ let same : q ≡ r = cc (rw e at found) in subst Projected same h.0
  | inr e ↦ All-get id r rows h.1 (rw e at found)
]

pub All-replace_row :
    (q : CronRecord) (rows : List CronRecord)
    → All Projected rows
    → Projected q
    → All Projected (replace_row q rows)
unfolding replace_row
All-replace_row q [] h new = tt
All-replace_row q (r ∷ rows) h new = elim (Bool-cases (q.id == r.id)) [
  | inl e ↦ rw e (new, h.1)
  | inr e ↦ rw e (h.0, All-replace_row q rows h.1 new)
]

pub All-delete :
    (p : CronRecord → Bool) (rows : List CronRecord)
    → All Projected rows
    → All Projected (keep_if p rows)
All-delete p [] h = tt
All-delete p (r ∷ rows) h = elim (Bool-cases (p r)) [
  | inl e ↦ rw e (h.0, All-delete p rows h.1)
  | inr e ↦ rw e (All-delete p rows h.1)
]

pub null_absurd : (r : CronRecord) → r.json ≡ null_document → Projected r → ⊥
unfolding cron_fields
null_absurd r e (c, h) = cc (rw e at h)
