-- ===== src/Cron/FireLaws.antt =====
-- What RecordFire does to the log: it stays sorted by the time of the fire, and has the new key.
use knowlega.Base.{
  ℕ, suc, ◌+◌, String, Bool, true, false, not, ◌&&◌, some, List, [], ◌∷◌, ◌==◌, ◌≡◌, refl, ap, ◌∙◌,
  inl, inr, if◌then◌else◌, Bool-cases, Option-cases, eq_iff, eq_refl, arith, any, count_if,
}
use knowlega.Base.Int.{ℤ, pos, negsuc, ltz, eqz_iff}
use knowlega.Base.Maps.{lookup, set, set_all, lookup-set_self, lookup-set_other}
use knowlega.Cron.Document.{
  Scalar, null, boolean, integer, raw, Element, object, no_object, items, Document, document,
}
use knowlega.Cron.FireLog.{
  Entry, same_scalar, has_key, write_entry, merge_entry, fired_at, insert_fire, sort_onto, logged,
  log_of, with_fire, record_fire,
}
use knowlega.Cron.Table.{CronRecord, get, Updated, updated}
use knowlega.Cron.Claims.{get-id, get-replace_row}

-- Each element fired no later than the next.
abbrev pub Sorted : List Element → Type 0
Sorted [] = Unit
Sorted (e ∷ []) = Unit
Sorted (e ∷ f ∷ log) = (ltz (fired_at f) (fired_at e) ≡ false) × Sorted (f ∷ log)

ltz_asym : (a b : ℤ) → ltz a b ≡ true → ltz b a ≡ false
ltz_asym (pos a) (pos b) h = ground arith
ltz_asym (pos a) (negsuc b) h = ground arith
ltz_asym (negsuc a) (pos b) h = refl
ltz_asym (negsuc a) (negsuc b) h = ground arith

insert_fire-Sorted : (e : Element) (log : List Element) → Sorted log → Sorted (insert_fire e log)
insert_fire-Sorted e [] h = tt
insert_fire-Sorted e (f ∷ []) h = elim (Bool-cases (ltz (fired_at e) (fired_at f))) [
  | inl b ↦ rw b (ltz_asym (fired_at e) (fired_at f) b, tt)
  | inr b ↦ rw b (b, tt)
]
insert_fire-Sorted e (f ∷ g ∷ log) h = elim (Bool-cases (ltz (fired_at e) (fired_at f))) [
  | inl b ↦ rw b (ltz_asym (fired_at e) (fired_at f) b, h)
  | inr b ↦
      let rest = insert_fire-Sorted e (g ∷ log) h.1 in
      rw b (elim (Bool-cases (ltz (fired_at e) (fired_at g))) [
        | inl c ↦ rw c (b, rw c at rest)
        | inr c ↦ rw c (h.0, rw c at rest)
      ])
]

sort_onto-Sorted : (log sorted : List Element) → Sorted sorted → Sorted (sort_onto log sorted)
sort_onto-Sorted [] sorted h = h
sort_onto-Sorted (e ∷ log) sorted h =
    sort_onto-Sorted log (insert_fire e sorted) (insert_fire-Sorted e sorted h)

module _ (p : Element → Bool) where
  count-insert_fire :
      (e : Element) (log : List Element)
      → count_if p (insert_fire e log) ≡ (if p e then 1 else 0) + count_if p log
  count-insert_fire e [] = refl
  count-insert_fire e (f ∷ log) = elim (Bool-cases (ltz (fired_at e) (fired_at f))) [
    | inl b ↦ rw b refl
    | inr b ↦ rw b (omega (arith, count-insert_fire e log))
  ]

  count-sort_onto :
      (log sorted : List Element)
      → count_if p (sort_onto log sorted) ≡ count_if p log + count_if p sorted
  count-sort_onto [] sorted = omega arith
  count-sort_onto (e ∷ log) sorted =
      omega (arith, count-sort_onto log (insert_fire e sorted), count-insert_fire e sorted)

same_scalar_iff : (a b : Scalar) → (same_scalar a b ≡ true → a ≡ b) × (same_scalar a a ≡ true)
same_scalar_iff null null = ((λ h. refl), refl)
same_scalar_iff null (boolean b) = ((λ h. cc), refl)
same_scalar_iff null (integer z) = ((λ h. cc), refl)
same_scalar_iff null (raw s) = ((λ h. cc), refl)
same_scalar_iff (boolean true) (boolean true) = ((λ h. refl), refl)
same_scalar_iff (boolean true) (boolean false) = ((λ h. cc), refl)
same_scalar_iff (boolean false) (boolean true) = ((λ h. cc), refl)
same_scalar_iff (boolean false) (boolean false) = ((λ h. refl), refl)
same_scalar_iff (boolean true) null = ((λ h. cc), refl)
same_scalar_iff (boolean false) null = ((λ h. cc), refl)
same_scalar_iff (boolean true) (integer z) = ((λ h. cc), refl)
same_scalar_iff (boolean false) (integer z) = ((λ h. cc), refl)
same_scalar_iff (boolean true) (raw s) = ((λ h. cc), refl)
same_scalar_iff (boolean false) (raw s) = ((λ h. cc), refl)
same_scalar_iff (integer x) (integer y) =
    ((λ h. ap integer ((eqz_iff x y).0 h)), (eqz_iff x x).1 refl)
same_scalar_iff (integer x) null = ((λ h. cc), (eqz_iff x x).1 refl)
same_scalar_iff (integer x) (boolean b) = ((λ h. cc), (eqz_iff x x).1 refl)
same_scalar_iff (integer x) (raw s) = ((λ h. cc), (eqz_iff x x).1 refl)
same_scalar_iff (raw s) (raw t) = ((λ h. ap raw ((eq_iff s t).0 h)), eq_refl s)
same_scalar_iff (raw s) null = ((λ h. cc), eq_refl s)
same_scalar_iff (raw s) (boolean b) = ((λ h. cc), eq_refl s)
same_scalar_iff (raw s) (integer z) = ((λ h. cc), eq_refl s)

-- A field of the new entry is read back.
lookup-set_all :
    (k : String) (v : Scalar) (new old : Entry)
    → lookup k new ≡ some v
    → lookup k (set_all new old) ≡ some v
lookup-set_all k v [] old h = cc
lookup-set_all k v (c ∷ new) old h = elim (Bool-cases (k == c.0)) [
  | inl e ↦ rw ((eq_iff k c.0).0 e) (lookup-set_self c.0 c.1 (set_all new old) ∙ (rw e at h))
  | inr e ↦ lookup-set_other k c.0 c.1 (set_all new old) e ∙ lookup-set_all k v new old (rw e at h)
]

has_key-write_entry :
    (j k : Scalar) (new : Entry) (e : Element)
    → lookup "fireKey" new ≡ some k
    → has_key k e ≡ true
    → has_key j (write_entry new e) ≡ has_key j e
has_key-write_entry j k new no_object key h = refl
has_key-write_entry j k new (object old) key h = elim (Option-cases (lookup "fireKey" old)) [
  | inl e ↦ cc (rw e at h)
  | inr (i, e) ↦
      let same : k ≡ i = (same_scalar_iff k i).0 (rw e at h) in
      rw (lookup-set_all "fireKey" k new old key) (rw e (ap (same_scalar j) same))
]

-- How many entries of a key there are afterwards.
abbrev pub after_fire : Scalar → Scalar → List Element → ℕ
after_fire j k log =
    if same_scalar j k && not (any (has_key k) log)
    then suc (count_if (has_key j) log)
    else count_if (has_key j) log

count-merge_entry :
    (j k : Scalar) (new : Entry) (log : List Element)
    → lookup "fireKey" new ≡ some k
    → count_if (has_key j) (merge_entry k new log) ≡ after_fire j k log
count-merge_entry j k new [] key =
    rw key (elim (Bool-cases (same_scalar j k)) [ inl e ↦ rw e refl | inr e ↦ rw e refl ])
count-merge_entry j k new (e ∷ log) key = elim (Bool-cases (has_key k e)) [
  | inl b ↦ rw b (rw (has_key-write_entry j k new e key b) (ground arith))
  | inr b ↦ rw b (ground (arith, count-merge_entry j k new log key))
]

logged-Sorted : (k : Scalar) (new : Entry) (log : List Element) → Sorted (logged k new log)
unfolding logged
logged-Sorted k new log = sort_onto-Sorted (merge_entry k new log) [] tt

count-logged :
    (j k : Scalar) (new : Entry) (log : List Element)
    → lookup "fireKey" new ≡ some k
    → count_if (has_key j) (logged k new log) ≡ after_fire j k log
unfolding logged
count-logged j k new log key = omega (
  arith,
  count-sort_onto (has_key j) (merge_entry k new log) [],
  count-merge_entry j k new log key,
)

-- The log that a document holds.
abbrev pub log_in : Document → List Element
log_in d = log_of (lookup "fireLog" d)

-- The call succeeded, and the row of the id has a document whose log is sorted and has, of the key
-- `j`, `n` entries.
abbrev pub Fired : String → Scalar → ℕ → List CronRecord × Updated → Type 0
Fired id j n (rows, o) =
    (o ≡ updated true)
    × (r : CronRecord) × (d : Document) × (get id rows ≡ some r)
    × (r.json ≡ document d)
    × Sorted (log_in d)
    × (count_if (has_key j) (log_in d) ≡ n)

-- RecordFire of an entry with a key, for a cron with a document, succeeds; afterwards the cron's log
-- is sorted by the time of the fire, and of any key it has as many entries as before, or one more
-- where the key is that of the new entry and was not in the log.
pub record_fire-Fired :
    (now : ℤ) (id : String) (j k : Scalar) (new : Entry) (rows : List CronRecord) (r : CronRecord)
    (d : Document)
    → lookup "fireKey" new ≡ some k
    → get id rows ≡ some r
    → r.json ≡ document d
    → Fired id j (after_fire j k (log_in d)) (record_fire now id (some new) rows)
unfolding record_fire with_fire
record_fire-Fired now id j k new rows r d key here doc =
    let log = logged k new (log_in d) in
    let read : lookup "fireLog" (set "fireLog" (items log) d) ≡ some (items log) =
      lookup-set_self "fireLog" (items log) d in
    rw (key, here, doc, record_fire)
      (
        refl,
        with_fire now k new d r,
        set "fireLog" (items log) d,
        get-replace_row id (with_fire now k new d r) r rows here (get-id id r rows here),
        refl,
        (rw read (logged-Sorted k new (log_in d))),
        (rw read (count-logged j k new (log_in d) key)),
      )
