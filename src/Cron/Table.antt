-- ===== src/Cron/Table.antt =====
-- The methods of CronRepository over the rows of the table, in the order of their ids. Each method
-- is one statement, or a transaction that holds the row's lock, so it takes effect as a whole. `now`
-- is the clock.
use knowlega.Base.{
  ℕ, String, Bool, true, false, not, ◌&&◌, Option, none, some, List, [], ◌∷◌, ◌++◌, ◌==◌,
  if◌then◌else◌, take, keep_if,
}
use knowlega.Base.Int.{ℤ, pos, negsuc, ltz, eqz}
use knowlega.Base.Maps.{set_all, remove_all}
use knowlega.Cron.Document.{
  boolean, scalar, Document, Payload, document, null_document, not_object, not_json, Fields,
  cron_fields, document_fields, schedule_document,
}

pub record CronRecord : Type 0 where
  pub id : String
  pub json : Payload
  pub enabled : Bool
  pub archived : Bool
  pub next_fire_at : Option ℤ
  pub last_fired_at : Option ℤ
  pub created_at : ℤ
  pub updated_at : ℤ

-- The answer of a method that changes a row: whether it did, an error, or a panic (a write into the
-- nil map that a document `null` reads as).
pub data Updated : Type 0 where
  updated : Bool → Updated
  failed panicked : Updated

unfoldable pub get : String → List CronRecord → Option CronRecord
get id [] = none
get id (r ∷ rows) = if id == r.id then some r else get id rows

-- The row of the id becomes `r`.
unfoldable pub replace_row : CronRecord → List CronRecord → List CronRecord
replace_row r [] = []
replace_row r (q ∷ rows) = if r.id == q.id then r ∷ rows else q ∷ replace_row r rows

abbrev pub is_json : Payload → Bool
is_json (document d) = true
is_json null_document = true
is_json not_object = true
is_json not_json = false

-- The id is a new UUID.
unfoldable pub create :
    ℤ → String → Payload → Option ℤ → List CronRecord → List CronRecord × Option CronRecord
create now id payload next rows =
    let record' : CronRecord = record {
      id = id;
      json = payload;
      enabled = true;
      archived = false;
      next_fire_at = next;
      last_fired_at = none;
      created_at = now;
      updated_at = now;
    } in
    if is_json payload then (rows ++ record' ∷ [], some record') else (rows, none)

abbrev pub created_at_or : ℤ → Option ℤ → ℤ
created_at_or fallback none = fallback
created_at_or fallback (some z) = z

-- The row that Put and PutIfAbsent insert.
abbrev pub row_of : ℤ → String → Payload → Fields → CronRecord
row_of now id payload f = record {
  id = id;
  json = payload;
  enabled = f.enabled;
  archived = f.archived;
  next_fire_at = f.next_fire_at;
  last_fired_at = f.last_fired_at;
  created_at = created_at_or now f.created;
  updated_at = now;
}

-- The columns of a row that is there; its creation time stays.
abbrev pub with_fields : ℤ → Payload → Fields → CronRecord → CronRecord
with_fields now payload f r = record r {
  json = payload;
  enabled = f.enabled;
  archived = f.archived;
  next_fire_at = f.next_fire_at;
  last_fired_at = f.last_fired_at;
  updated_at = now;
}

-- Neither the empty id nor a payload without fields is accepted.
abbrev pub accepted_fields : String → Payload → Option Fields
accepted_fields id payload = if id == "" then none else cron_fields payload

unfoldable pub put : ℤ → String → Payload → List CronRecord → List CronRecord × Option CronRecord
unfolding get replace_row cron_fields
put now id payload rows = elim (accepted_fields id payload) [
  | none ↦ (rows, none)
  | some f ↦ elim (get id rows) [
    | none ↦ (rows ++ row_of now id payload f ∷ [], some (row_of now id payload f))
    | some r ↦ (replace_row (with_fields now payload f r) rows, some (with_fields now payload f r))
  ]
]

unfoldable pub put_if_absent :
    ℤ → String → Payload → List CronRecord → List CronRecord × Option CronRecord
unfolding get cron_fields
put_if_absent now id payload rows = elim (accepted_fields id payload) [
  | none ↦ (rows, none)
  | some f ↦ elim (get id rows) [
    | none ↦ (rows ++ row_of now id payload f ∷ [], some (row_of now id payload f))
    | some r ↦ (rows, some r)
  ]
]

-- The end of Merge: the columns come from the new document.
unfoldable pub merge_row : ℤ → Document → CronRecord → List CronRecord → List CronRecord × Updated
unfolding replace_row document_fields
merge_row now d r rows = elim (document_fields d) [
  | none ↦ (rows, failed)
  | some f ↦ (replace_row (with_fields now (document d) f r) rows, updated true)
]

-- The keys are removed, then the changes are written.
abbrev pub merged : List String → Document → Document → Document
merged ks changes d = set_all changes (remove_all ks d)

unfoldable pub merge_into :
    ℤ → Document → List String → CronRecord → Payload → List CronRecord → List CronRecord × Updated
unfolding merge_row
merge_into now changes ks r (document d) rows = merge_row now (merged ks changes d) r rows
merge_into now [] ks r null_document rows = (rows, failed)
merge_into now (c ∷ changes) ks r null_document rows = (rows, panicked)
merge_into now changes ks r not_object rows = (rows, failed)
merge_into now changes ks r not_json rows = (rows, failed)

-- `updated false` where there is no row of the id.
unfoldable pub merge :
    ℤ → String → Payload → List String → List CronRecord → List CronRecord × Updated
unfolding get merge_into
merge now id (document changes) ks rows = elim (get id rows) [
  | none ↦ (rows, updated false)
  | some r ↦ merge_into now changes ks r r.json rows
]
merge now id null_document ks rows = (rows, failed)
merge now id not_object ks rows = (rows, failed)
merge now id not_json ks rows = (rows, failed)

abbrev pub enabled_patch : Bool → Document
enabled_patch true = ("archived", scalar (boolean false)) ∷ ("enabled", scalar (boolean true)) ∷ []
enabled_patch false = ("enabled", scalar (boolean false)) ∷ []

unfoldable pub set_enabled : ℤ → String → Bool → List CronRecord → List CronRecord × Updated
unfolding merge
set_enabled now id enabled rows = merge now id (document (enabled_patch enabled)) [] rows

unfoldable pub delete : String → List CronRecord → List CronRecord
delete id rows = keep_if (λ r. not (id == r.id)) rows

unfoldable pub take_cron : String → List CronRecord → List CronRecord × Option CronRecord
unfolding get delete
take_cron id rows = (delete id rows, get id rows)

abbrev pub is_time : Option ℤ → ℤ → Bool
is_time none z = false
is_time (some x) z = eqz x z

-- The guards of updateSchedule.
abbrev pub may_claim : ℤ → CronRecord → Bool
may_claim expected r = r.enabled && not r.archived && is_time r.next_fire_at expected

abbrev pub may_mark : ℤ → CronRecord → Bool
may_mark (negsuc n) r = true
may_mark (pos n) r = is_time r.last_fired_at (pos n)

abbrev pub with_schedule : ℤ → Option ℤ → Option ℤ → Document → CronRecord → CronRecord
with_schedule now last next d r = record r {
  json = document (schedule_document d last next);
  last_fired_at = last;
  next_fire_at = next;
  updated_at = now;
}

-- `null` reads as a nil map, of which keys can be deleted, and which is written as `null` again.
unfoldable pub write_schedule :
    ℤ → Option ℤ → Option ℤ → CronRecord → Payload → List CronRecord → List CronRecord × Updated
unfolding replace_row
write_schedule now last next r (document d) rows =
    (replace_row (with_schedule now last next d r) rows, updated true)
write_schedule now none none r null_document rows = (
  replace_row (record r { last_fired_at = none; next_fire_at = none; updated_at = now }) rows,
  updated true,
)
write_schedule now (some l) next r null_document rows = (rows, panicked)
write_schedule now none (some n) r null_document rows = (rows, panicked)
write_schedule now last next r not_object rows = (rows, failed)
write_schedule now last next r not_json rows = (rows, failed)

unfoldable pub update_schedule :
    ℤ → String → ℤ → Option ℤ → Option ℤ → Bool → List CronRecord → List CronRecord × Updated
unfolding get write_schedule
update_schedule now id expected last next claim rows = elim (get id rows) [
  | none ↦ (rows, updated false)
  | some r ↦
      if (if claim then may_claim expected r else may_mark expected r)
      then write_schedule now last next r r.json rows
      else (rows, updated false)
]

unfoldable pub claim_slot :
    ℤ → String → ℤ → ℤ → Option ℤ → List CronRecord → List CronRecord × Updated
unfolding update_schedule
claim_slot now id scheduled fired next rows =
    update_schedule now id scheduled (some fired) next true rows

unfoldable pub unclaim_slot :
    ℤ → String → ℤ → ℤ → Option ℤ → List CronRecord → List CronRecord × Updated
unfolding update_schedule
unclaim_slot now id scheduled fired prior rows =
    update_schedule now id fired prior (some scheduled) false rows

unfoldable pub mark_fired : ℤ → String → ℤ → Option ℤ → List CronRecord → List CronRecord × Updated
unfolding update_schedule
mark_fired now id fired next rows = update_schedule now id (negsuc 0) (some fired) next false rows

-- ORDER BY next_fire_at: a row goes before the first that fires later.
abbrev pub fires_later : ℤ → Option ℤ → Bool
fires_later z none = false
fires_later z (some x) = ltz z x

abbrev pub is_due : ℤ → CronRecord → Bool
is_due now r =
    r.enabled && not r.archived && elim r.next_fire_at [ none ↦ false | some z ↦ not (ltz now z) ]

abbrev pub next_or_zero : CronRecord → ℤ
next_or_zero r = elim r.next_fire_at [ none ↦ pos 0 | some z ↦ z ]

abbrev pub insert_by_next : CronRecord → List CronRecord → List CronRecord
insert_by_next r [] = r ∷ []
insert_by_next r (q ∷ rows) =
    if ltz (next_or_zero r) (next_or_zero q) then r ∷ q ∷ rows else q ∷ insert_by_next r rows

abbrev pub by_next : List CronRecord → List CronRecord → List CronRecord
by_next [] sorted = sorted
by_next (r ∷ rows) sorted = by_next rows (insert_by_next r sorted)

abbrev pub due_limit : ℤ → ℕ
due_limit (negsuc n) = 100
due_limit (pos n) = if ltz (pos 0) (pos n) && not (ltz (pos 500) (pos n)) then n else 100

unfoldable pub list_due : ℤ → ℤ → List CronRecord → List CronRecord
list_due now limit rows = take (due_limit limit) (by_next (keep_if (is_due now) rows) [])
