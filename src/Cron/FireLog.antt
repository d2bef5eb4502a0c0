-- ===== src/Cron/FireLog.antt =====
-- RecordFire: the log of a cron's fires, which its document holds under "fireLog".
use knowlega.Base.{
  String, Bool, true, false, Option, none, some, List, [], ◌∷◌, ◌==◌, if◌then◌else◌,
}
use knowlega.Base.Int.{ℤ, pos, ltz, eqz}
use knowlega.Base.Maps.{lookup, set, set_all}
use knowlega.Cron.Document.{
  Scalar, null, boolean, integer, raw, Element, object, no_object, Value, scalar, items, Document,
  Payload, document, null_document, not_object, not_json,
}
use knowlega.Cron.Table.{CronRecord, get, replace_row, Updated, updated, failed, panicked}

abbrev pub Entry : Type 0
Entry = List (String × Scalar)

-- string(a) == string(b) on raw messages.
abbrev pub same_scalar : Scalar → Scalar → Bool
same_scalar null null = true
same_scalar null (boolean b) = false
same_scalar null (integer z) = false
same_scalar null (raw s) = false
same_scalar (boolean true) (boolean true) = true
same_scalar (boolean true) (boolean false) = false
same_scalar (boolean false) (boolean true) = false
same_scalar (boolean false) (boolean false) = true
same_scalar (boolean b) null = false
same_scalar (boolean b) (integer z) = false
same_scalar (boolean b) (raw s) = false
same_scalar (integer x) null = false
same_scalar (integer x) (boolean b) = false
same_scalar (integer x) (integer y) = eqz x y
same_scalar (integer x) (raw s) = false
same_scalar (raw s) null = false
same_scalar (raw s) (boolean b) = false
same_scalar (raw s) (integer z) = false
same_scalar (raw s) (raw t) = s == t

-- A key that is missing is the empty text, which no key of a new entry is.
abbrev pub is_key : Scalar → Option Scalar → Bool
is_key k none = false
is_key k (some j) = same_scalar k j

abbrev pub has_key : Scalar → Element → Bool
has_key k (object e) = is_key k (lookup "fireKey" e)
has_key k no_object = false

-- json.Unmarshal into a list of maps; its error is ignored.
abbrev pub log_of : Option Value → List Element
log_of none = []
log_of (some (scalar s)) = []
log_of (some (items l)) = l

-- The fields of the new entry are written into the first entry of its key.
abbrev pub write_entry : Entry → Element → Element
write_entry new (object old) = object (set_all new old)
write_entry new no_object = no_object

abbrev pub merge_entry : Scalar → Entry → List Element → List Element
merge_entry k new [] = object new ∷ []
merge_entry k new (e ∷ log) =
    if has_key k e then write_entry new e ∷ log else e ∷ merge_entry k new log

-- What is no integer counts as 0.
abbrev pub json_number : Option Scalar → ℤ
json_number none = pos 0
json_number (some null) = pos 0
json_number (some (boolean b)) = pos 0
json_number (some (integer z)) = z
json_number (some (raw s)) = pos 0

abbrev pub fired_at : Element → ℤ
fired_at (object e) = json_number (lookup "firedAt" e)
fired_at no_object = pos 0

-- sort.SliceStable: each element goes before the first that fired later.
abbrev pub insert_fire : Element → List Element → List Element
insert_fire e [] = e ∷ []
insert_fire e (f ∷ log) =
    if ltz (fired_at e) (fired_at f) then e ∷ f ∷ log else f ∷ insert_fire e log

abbrev pub sort_onto : List Element → List Element → List Element
sort_onto [] sorted = sorted
sort_onto (e ∷ log) sorted = sort_onto log (insert_fire e sorted)

unfoldable pub logged : Scalar → Entry → List Element → List Element
logged k new log = sort_onto (merge_entry k new log) []

unfoldable pub with_fire : ℤ → Scalar → Entry → Document → CronRecord → CronRecord
unfolding logged
with_fire now k new d r = record r {
  json = document (set "fireLog" (items (logged k new (log_of (lookup "fireLog" d)))) d);
  updated_at = now;
}

abbrev pub log_fire :
    ℤ → Scalar → Entry → CronRecord → Payload → List CronRecord → List CronRecord × Updated
log_fire now k new r (document d) rows = (replace_row (with_fire now k new d r) rows, updated true)
log_fire now k new r null_document rows = (rows, panicked)
log_fire now k new r not_object rows = (rows, failed)
log_fire now k new r not_json rows = (rows, failed)

-- `none` is a text that is no JSON object.
unfoldable pub record_fire : ℤ → String → Option Entry → List CronRecord → List CronRecord × Updated
unfolding get replace_row with_fire
record_fire now id none rows = (rows, failed)
record_fire now id (some new) rows = elim (lookup "fireKey" new) [
  | none ↦ (rows, failed)
  | some k ↦ elim (get id rows) [
    | none ↦ (rows, updated false)
    | some r ↦ log_fire now k new r r.json rows
  ]
]
