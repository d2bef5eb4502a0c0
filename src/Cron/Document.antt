-- ===== src/Cron/Document.antt =====
-- A cron's JSON document as encoding/json reads it into map[string]json.RawMessage, and the columns
-- that cronFields derives from it. A value is kept as far as the code tells values apart: null, a
-- Boolean, an integer that fits 64 bits, any other text, and a list, of which RecordFire reads the
-- objects.
use knowlega.Base.{String, Bool, true, false, Option, none, some, List}
use knowlega.Base.Int.{ℤ}
use knowlega.Base.Maps.{lookup, set, remove}

pub data Scalar : Type 0 where
  null : Scalar
  boolean : Bool → Scalar
  integer : ℤ → Scalar
  raw : String → Scalar

-- An element of a list: an object, or anything else, which reads back as null.
pub data Element : Type 0 where
  object : List (String × Scalar) → Element
  no_object : Element

pub data Value : Type 0 where
  scalar : Scalar → Value
  items : List Element → Value

abbrev pub Document : Type 0
Document = List (String × Value)

-- What a text holds: an object, null, other JSON, or no JSON at all.
pub data Payload : Type 0 where
  document : Document → Payload
  null_document not_object not_json : Payload

pub record Fields : Type 0 where
  pub enabled : Bool
  pub archived : Bool
  pub next_fire_at : Option ℤ
  pub last_fired_at : Option ℤ
  pub created : Option ℤ

-- json.Unmarshal into a bool that holds the default; null leaves it.
abbrev pub read_bool : Bool → Option Value → Option Bool
read_bool default none = some default
read_bool default (some (scalar null)) = some default
read_bool default (some (scalar (boolean b))) = some b
read_bool default (some (scalar (integer z))) = none
read_bool default (some (scalar (raw s))) = none
read_bool default (some (items l)) = none

-- The outer option is the error.
abbrev pub optional_json_int : Option Value → Option (Option ℤ)
optional_json_int none = some none
optional_json_int (some (scalar null)) = some none
optional_json_int (some (scalar (boolean b))) = none
optional_json_int (some (scalar (integer z))) = some (some z)
optional_json_int (some (scalar (raw s))) = none
optional_json_int (some (items l)) = none

infixl 5 ◌>>=◌
abbrev pub ◌>>=◌ {ℓ κ} : {A : Type ℓ} {B : Type κ} → Option A → (A → Option B) → Option B
none >>= f = none
some a >>= f = f a

-- The first field that cannot be read is the error.
abbrev pub fields_of :
    Option Bool
    → Option Bool
    → Option (Option ℤ)
    → Option (Option ℤ)
    → Option (Option ℤ)
    → Option Fields
fields_of read_enabled read_archived read_next read_last read_created = do
  enabled ← read_enabled
  archived ← read_archived
  next ← read_next
  last ← read_last
  created ← read_created
  some (record {
    enabled = enabled;
    archived = archived;
    next_fire_at = next;
    last_fired_at = last;
    created = created;
  })

unfoldable pub document_fields : Document → Option Fields
document_fields d =
    fields_of (read_bool true (lookup "enabled" d)) (read_bool false (lookup "archived" d))
      (optional_json_int (lookup "nextFireAt" d)) (optional_json_int (lookup "lastFiredAt" d))
      (optional_json_int (lookup "createdAt" d))

unfoldable pub cron_fields : Payload → Option Fields
unfolding document_fields
cron_fields (document d) = document_fields d
cron_fields null_document = none
cron_fields not_object = none
cron_fields not_json = none

abbrev pub put_time : String → Option ℤ → Document → Document
put_time k none d = remove k d
put_time k (some z) d = set k (scalar (integer z)) d

unfoldable pub schedule_document : Document → Option ℤ → Option ℤ → Document
schedule_document d last next = put_time "nextFireAt" next (put_time "lastFiredAt" last d)
