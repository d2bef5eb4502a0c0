-- ===== src/Cron/Columns.antt =====
-- ClaimSlot, UnclaimSlot, MarkFired and RecordFire keep the columns and the document together.
use knowlega.Base.{
  String, Bool, true, false, Option, none, some, List, ◌==◌, ◌≡◌, refl, ◌∙◌, inl, inr,
  if◌then◌else◌, Bool-cases, Option-cases, arith, All,
}
use knowlega.Base.Int.{ℤ}
use knowlega.Base.Maps.{
  lookup, set, lookup-set_self, lookup-set_other, lookup-remove_self, lookup-remove_other,
}
use knowlega.Cron.Document.{
  Document, Payload, document, null_document, not_object, not_json, Scalar, Fields, fields_of,
  put_time, items, scalar, integer, read_bool, optional_json_int, document_fields, cron_fields,
  schedule_document,
}
use knowlega.Cron.Table.{
  CronRecord, get, update_schedule, write_schedule, with_schedule, may_claim, may_mark,
}
use knowlega.Cron.FireLog.{Entry, record_fire, with_fire, log_fire, logged, log_of}
use knowlega.Cron.Projection.{Projected, All-get, All-replace_row, null_absurd}

-- The fields depend on five keys.
document_fields-same :
    (d e : Document)
    → lookup "enabled" d ≡ lookup "enabled" e
    → lookup "archived" d ≡ lookup "archived" e
    → lookup "nextFireAt" d ≡ lookup "nextFireAt" e
    → lookup "lastFiredAt" d ≡ lookup "lastFiredAt" e
    → lookup "createdAt" d ≡ lookup "createdAt" e
    → document_fields d ≡ document_fields e
unfolding document_fields
document_fields-same d e h1 h2 h3 h4 h5 = rw (h1, h2, h3, h4, h5) refl

-- The fields with the times written anew.
abbrev timed : Option ℤ → Option ℤ → Fields → Fields
timed last next f = record f { last_fired_at = last; next_fire_at = next }

fields_of-timed :
    (a b : Option Bool) (n l c : Option (Option ℤ)) (f : Fields) (last next : Option ℤ)
    → fields_of a b n l c ≡ some f
    → fields_of a b (some next) (some last) c ≡ some (timed last next f)
fields_of-timed none b n l c f last next h = cc
fields_of-timed (some a) none n l c f last next h = cc
fields_of-timed (some a) (some b) none l c f last next h = cc
fields_of-timed (some a) (some b) (some n) none c f last next h = cc
fields_of-timed (some a) (some b) (some n) (some l) none f last next h = cc
fields_of-timed (some a) (some b) (some n) (some l) (some c) f last next h = ground (arith, h)

-- Writing a time leaves the other keys, and the time is read back.
lookup-put_time_other :
    (j k : String) (t : Option ℤ) (d : Document)
    → (j == k) ≡ false
    → lookup j (put_time k t d) ≡ lookup j d
lookup-put_time_other j k none d h = lookup-remove_other j k d h
lookup-put_time_other j k (some z) d h = lookup-set_other j k (scalar (integer z)) d h

read-put_time :
    (k : String) (t : Option ℤ) (d : Document)
    → optional_json_int (lookup k (put_time k t d)) ≡ some t
read-put_time k none d = rw (lookup-remove_self k d) refl
read-put_time k (some z) d = rw (lookup-set_self k (scalar (integer z)) d) refl

schedule_fields :
    (d : Document) (f : Fields) (last next : Option ℤ)
    → document_fields d ≡ some f
    → document_fields (schedule_document d last next) ≡ some (timed last next f)
unfolding document_fields schedule_document
schedule_fields d f last next h =
    let after = put_time "lastFiredAt" last d in
    rw
      (
        lookup-put_time_other "enabled" "nextFireAt" next after refl,
        lookup-put_time_other "enabled" "lastFiredAt" last d refl,
        lookup-put_time_other "archived" "nextFireAt" next after refl,
        lookup-put_time_other "archived" "lastFiredAt" last d refl,
        lookup-put_time_other "createdAt" "nextFireAt" next after refl,
        lookup-put_time_other "createdAt" "lastFiredAt" last d refl,
        read-put_time "nextFireAt" next after,
        lookup-put_time_other "lastFiredAt" "nextFireAt" next after refl,
        read-put_time "lastFiredAt" last d,
      )
      (fields_of-timed (read_bool true (lookup "enabled" d)) (read_bool false (lookup "archived" d))
        (optional_json_int (lookup "nextFireAt" d)) (optional_json_int (lookup "lastFiredAt" d))
        (optional_json_int (lookup "createdAt" d)) f last next h)

with_schedule-Projected :
    (now : ℤ) (last next : Option ℤ) (d : Document) (r : CronRecord)
    → r.json ≡ document d
    → Projected r
    → Projected (with_schedule now last next d r)
unfolding cron_fields
with_schedule-Projected now last next d r doc (c, h) =
    (c, schedule_fields d _ last next (rw doc at h))

with_fire-Projected :
    (now : ℤ) (k : Scalar) (new : Entry) (d : Document) (r : CronRecord)
    → r.json ≡ document d
    → Projected r
    → Projected (with_fire now k new d r)
unfolding cron_fields with_fire
with_fire-Projected now k new d r doc (c, h) =
    let log = items (logged k new (log_of (lookup "fireLog" d))) in
    (
      c,
      document_fields-same (set "fireLog" log d) d (lookup-set_other "enabled" "fireLog" log d refl)
            (lookup-set_other "archived" "fireLog" log d refl)
            (lookup-set_other "nextFireAt" "fireLog" log d refl)
            (lookup-set_other "lastFiredAt" "fireLog" log d refl)
            (lookup-set_other "createdAt" "fireLog" log d refl)
          ∙ (rw doc at h),
    )

write_schedule-Projected :
    (now : ℤ) (last next : Option ℤ) (r : CronRecord) (j : Payload) (rows : List CronRecord)
    → r.json ≡ j
    → Projected r
    → All Projected rows
    → All Projected (write_schedule now last next r j rows).0
unfolding write_schedule
write_schedule-Projected now last next r (document d) rows e p h =
    All-replace_row _ rows h (with_schedule-Projected now last next d r e p)
write_schedule-Projected now none none r null_document rows e p h = absurd (null_absurd r e p)
write_schedule-Projected now (some l) next r null_document rows e p h = h
write_schedule-Projected now none (some n) r null_document rows e p h = h
write_schedule-Projected now last next r not_object rows e p h = h
write_schedule-Projected now last next r not_json rows e p h = h

pub update_schedule-Projected :
    (now : ℤ) (id : String) (expected : ℤ) (last next : Option ℤ) (claim : Bool)
    (rows : List CronRecord)
    → All Projected rows
    → All Projected (update_schedule now id expected last next claim rows).0
unfolding update_schedule
update_schedule-Projected now id expected last next claim rows h =
    elim (Option-cases (get id rows)) [
      | inl e ↦ rw (e, update_schedule) h
      | inr (r, e) ↦
          elim (Bool-cases (if claim then may_claim expected r else may_mark expected r)) [
            | inl b ↦
                rw (e, update_schedule)
                  (rw b (
                    write_schedule-Projected now last next r r.json rows refl
                      (All-get id r rows h e) h))
            | inr b ↦ rw (e, update_schedule) (rw b h)
          ]
    ]

log_fire-Projected :
    (now : ℤ) (k : Scalar) (new : Entry) (r : CronRecord) (j : Payload) (rows : List CronRecord)
    → r.json ≡ j
    → Projected r
    → All Projected rows
    → All Projected (log_fire now k new r j rows).0
log_fire-Projected now k new r (document d) rows e p h =
    All-replace_row _ rows h (with_fire-Projected now k new d r e p)
log_fire-Projected now k new r null_document rows e p h = h
log_fire-Projected now k new r not_object rows e p h = h
log_fire-Projected now k new r not_json rows e p h = h

pub record_fire-Projected :
    (now : ℤ) (id : String) (entry : Option Entry) (rows : List CronRecord)
    → All Projected rows
    → All Projected (record_fire now id entry rows).0
unfolding record_fire
record_fire-Projected now id none rows h = h
record_fire-Projected now id (some new) rows h = elim (Option-cases (lookup "fireKey" new)) [
  | inl e ↦ rw (e, record_fire) h
  | inr (k, e) ↦ elim (Option-cases (get id rows)) [
    | inl f ↦ rw (e, f, record_fire) h
    | inr (r, f) ↦
        rw (e, f, record_fire)
          (log_fire-Projected now k new r r.json rows refl (All-get id r rows h f) h)
  ]
]
