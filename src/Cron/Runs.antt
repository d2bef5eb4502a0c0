-- ===== src/Cron/Runs.antt =====
-- Put, PutIfAbsent, Merge and the deletions keep the columns and the document together, and so does
-- any run of calls.
use knowlega.Base.{
  String, Bool, true, false, some, List, [], ◌∷◌, ◌++◌, ◌==◌, ◌≡◌, inl, inr, Bool-cases,
  Option-cases, All, All-append,
}
use knowlega.Base.Int.{ℤ, negsuc}
use knowlega.Cron.Document.{
  Document, Payload, document, null_document, not_object, not_json, Fields, document_fields,
  cron_fields,
}
use knowlega.Cron.Table.{
  CronRecord, get, put, put_if_absent, merge, merge_into, merge_row, merged, enabled_patch,
  set_enabled, delete, take_cron, claim_slot, unclaim_slot, mark_fired, accepted_fields,
}
use knowlega.Cron.Projection.{
  Projected, Call, call_put, call_put_if_absent, call_merge, call_set_enabled, call_delete,
  call_take, call_claim, call_unclaim, call_mark, call_record, step, run, All-replace_row,
  All-delete,
}
use knowlega.Cron.Columns.{update_schedule-Projected, record_fire-Projected}

accepted_fields-eq :
    (id : String) (payload : Payload) (f : Fields)
    → accepted_fields id payload ≡ some f
    → cron_fields payload ≡ some f
accepted_fields-eq id payload f h = elim (Bool-cases (id == "")) [
  | inl e ↦ cc (rw e at h)
  | inr e ↦ rw e at h
]

add-Projected :
    (r : CronRecord) (rows : List CronRecord)
    → All Projected rows
    → Projected r
    → All Projected (rows ++ r ∷ [])
add-Projected r rows h p = All-append Projected rows (r ∷ []) h (p, tt)

put-Projected :
    (now : ℤ) (id : String) (payload : Payload) (rows : List CronRecord)
    → All Projected rows
    → All Projected (put now id payload rows).0
unfolding put
put-Projected now id payload rows h = elim (Option-cases (accepted_fields id payload)) [
  | inl e ↦ rw (e, put) h
  | inr (f, e) ↦
      let fields : cron_fields payload ≡ some f = accepted_fields-eq id payload f e in
      elim (Option-cases (get id rows)) [
        | inl g ↦ rw (e, g, put) (add-Projected _ rows h (f.created, fields))
        | inr (r, g) ↦ rw (e, g, put) (All-replace_row _ rows h (f.created, fields))
      ]
]

put_if_absent-Projected :
    (now : ℤ) (id : String) (payload : Payload) (rows : List CronRecord)
    → All Projected rows
    → All Projected (put_if_absent now id payload rows).0
unfolding put_if_absent
put_if_absent-Projected now id payload rows h = elim (Option-cases (accepted_fields id payload)) [
  | inl e ↦ rw (e, put_if_absent) h
  | inr (f, e) ↦
      let fields : cron_fields payload ≡ some f = accepted_fields-eq id payload f e in
      elim (Option-cases (get id rows)) [
        | inl g ↦ rw (e, g, put_if_absent) (add-Projected _ rows h (f.created, fields))
        | inr (r, g) ↦ rw (e, g, put_if_absent) h
      ]
]

merge_row-Projected :
    (now : ℤ) (d : Document) (r : CronRecord) (rows : List CronRecord)
    → All Projected rows
    → All Projected (merge_row now d r rows).0
unfolding merge_row
merge_row-Projected now d r rows h = elim (Option-cases (document_fields d)) [
  | inl e ↦ rw (e, merge_row) h
  | inr (f, e) ↦ rw (e, merge_row) (All-replace_row _ rows h (f.created, unfold cron_fields in e))
]

merge_into-Projected :
    (now : ℤ) (changes : Document) (ks : List String) (r : CronRecord) (j : Payload)
    (rows : List CronRecord)
    → All Projected rows
    → All Projected (merge_into now changes ks r j rows).0
unfolding merge_into
merge_into-Projected now changes ks r (document d) rows h =
    merge_row-Projected now (merged ks changes d) r rows h
merge_into-Projected now [] ks r null_document rows h = h
merge_into-Projected now (c ∷ changes) ks r null_document rows h = h
merge_into-Projected now changes ks r not_object rows h = h
merge_into-Projected now changes ks r not_json rows h = h

merge-Projected :
    (now : ℤ) (id : String) (patch : Payload) (ks : List String) (rows : List CronRecord)
    → All Projected rows
    → All Projected (merge now id patch ks rows).0
unfolding merge
merge-Projected now id (document changes) ks rows h = elim (Option-cases (get id rows)) [
  | inl e ↦ rw (e, merge) h
  | inr (r, e) ↦ rw (e, merge) (merge_into-Projected now changes ks r r.json rows h)
]
merge-Projected now id null_document ks rows h = h
merge-Projected now id not_object ks rows h = h
merge-Projected now id not_json ks rows h = h

set_enabled-Projected :
    (now : ℤ) (id : String) (enabled : Bool) (rows : List CronRecord)
    → All Projected rows
    → All Projected (set_enabled now id enabled rows).0
unfolding set_enabled
set_enabled-Projected now id enabled rows h =
    merge-Projected now id (document (enabled_patch enabled)) [] rows h

step-Projected :
    (c : Call) (rows : List CronRecord) → All Projected rows → All Projected (step c rows)
unfolding step delete take_cron claim_slot unclaim_slot mark_fired
step-Projected (call_put now id payload) rows h = put-Projected now id payload rows h
step-Projected (call_put_if_absent now id payload) rows h =
    put_if_absent-Projected now id payload rows h
step-Projected (call_merge now id patch ks) rows h = merge-Projected now id patch ks rows h
step-Projected (call_set_enabled now id enabled) rows h =
    set_enabled-Projected now id enabled rows h
step-Projected (call_delete id) rows h = All-delete _ rows h
step-Projected (call_take id) rows h = All-delete _ rows h
step-Projected (call_claim now id at fired next) rows h =
    update_schedule-Projected now id at (some fired) next true rows h
step-Projected (call_unclaim now id at fired prior) rows h =
    update_schedule-Projected now id fired prior (some at) false rows h
step-Projected (call_mark now id fired next) rows h =
    update_schedule-Projected now id (negsuc 0) (some fired) next false rows h
step-Projected (call_record now id entry) rows h = record_fire-Projected now id entry rows h

-- After any calls of the methods but Create, each cron has the columns that cronFields reads from its
-- document: enabled, archived and the times of the next and of the last fire.
pub run-Projected :
    (calls : List Call) (rows : List CronRecord)
    → All Projected rows
    → All Projected (run calls rows)
unfolding run
run-Projected [] rows h = h
run-Projected (c ∷ calls) rows h = run-Projected calls (step c rows) (step-Projected c rows h)
