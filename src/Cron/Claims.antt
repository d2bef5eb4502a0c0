-- ===== src/Cron/Claims.antt =====
-- A slot of a cron is fired by one of those who claim it, and a claim can be taken back.
use mathlib.Core.Path.{fun_ext}
use knowlega.Base.{
  ℕ, ◌+◌, String, true, false, Option, none, some, List, [], ◌∷◌, ◌==◌, ◌≡◌, refl, sym, ap, ◌∙◌,
  inl, inr, if◌then◌else◌, Bool-cases, eq_iff, arith,
}
use knowlega.Base.Int.{ℤ, pos, negsuc, eqz, eqz_iff}
use knowlega.Base.Maps.{
  lookup, lookup-set_self, lookup-set_other, lookup-remove_self, lookup-remove_other,
}
use knowlega.Cron.Document.{Document, document, put_time, schedule_document, Value, scalar, integer}
use knowlega.Cron.Table.{
  CronRecord, get, replace_row, Updated, updated, failed, panicked, is_time, may_claim, may_mark,
  with_schedule, write_schedule, update_schedule, claim_slot, unclaim_slot,
}

pub get-id :
    (id : String) (r : CronRecord) (rows : List CronRecord) → get id rows ≡ some r → r.id ≡ id
unfolding get
get-id id r [] h = cc
get-id id r (q ∷ rows) h = elim (Bool-cases (id == q.id)) [
  | inl e ↦ let same : q ≡ r = cc (rw e at h) in ground (arith, same, e, eq_iff id q.id)
  | inr e ↦ get-id id r rows (rw e at h)
]

-- The row that was read is replaced.
pub get-replace_row :
    (id : String) (q r : CronRecord) (rows : List CronRecord)
    → get id rows ≡ some r
    → q.id ≡ id
    → get id (replace_row q rows) ≡ some q
unfolding get replace_row
get-replace_row id q r [] h same = cc
get-replace_row id q r (p ∷ rows) h same = elim (Bool-cases (id == p.id)) [
  | inl e ↦
      let here : (q.id == p.id) ≡ true = ap (λ i. i == p.id) same ∙ e in
      let found : (id == q.id) ≡ true = (eq_iff id q.id).1 (sym same) in rw here (rw found refl)
  | inr e ↦
      let other : (q.id == p.id) ≡ false = ap (λ i. i == p.id) same ∙ e in
      rw other (rw e (get-replace_row id q r rows (rw e at h) same))
]

eqz_refl : (z : ℤ) → eqz z z ≡ true
eqz_refl z = (eqz_iff z z).1 refl

may_mark_last : (z : ℤ) (r : CronRecord) → r.last_fired_at ≡ some z → may_mark z r ≡ true
may_mark_last (pos n) r h = rw h (eqz_refl (pos n))
may_mark_last (negsuc n) r h = refl

module _ (id : String) (rows : List CronRecord) (r : CronRecord) (d : Document)
    (here : get id rows ≡ some r) (doc : r.json ≡ document d) where
  pub claim_slot-won :
      (now scheduled fired : ℤ) (next : Option ℤ)
      → may_claim scheduled r ≡ true
      → claim_slot now id scheduled fired next rows
        ≡ (replace_row (with_schedule now (some fired) next d r) rows, updated true)
  unfolding claim_slot update_schedule write_schedule
  claim_slot-won now scheduled fired next may =
      rw (here, update_schedule) (rw may (rw (doc, write_schedule) refl))

  pub get-claimed :
      (now scheduled fired : ℤ) (next : Option ℤ)
      → get id (replace_row (with_schedule now (some fired) next d r) rows)
        ≡ some (with_schedule now (some fired) next d r)
  get-claimed now scheduled fired next =
      get-replace_row id (with_schedule now (some fired) next d r) r rows here
        (get-id id r rows here)

-- A call of ClaimSlot for a given slot: the clock, the time of the fire, the next slot.
pub record Claimant : Type 0 where
  pub now : ℤ
  pub fired_at : ℤ
  pub next_fire_at : Option ℤ

abbrev one_if : Updated → ℕ
one_if (updated b) = if b then 1 else 0
one_if failed = 0
one_if panicked = 0

-- How many of the calls, in turn, are told that they have claimed the slot.
unfoldable pub winners : String → ℤ → List Claimant → List CronRecord → ℕ
winners id scheduled [] rows = 0
winners id scheduled (c ∷ calls) rows =
    let o = claim_slot c.now id scheduled c.fired_at c.next_fire_at rows in
    one_if o.1 + winners id scheduled calls o.0

claim_slot-lost :
    (now scheduled fired : ℤ) (next : Option ℤ) (id : String) (rows : List CronRecord)
    (r : CronRecord)
    → get id rows ≡ some r
    → may_claim scheduled r ≡ false
    → claim_slot now id scheduled fired next rows ≡ (rows, updated false)
unfolding claim_slot update_schedule
claim_slot-lost now scheduled fired next id rows r here may =
    rw (here, update_schedule) (rw may refl)

winners-none :
    (id : String) (scheduled : ℤ) (calls : List Claimant) (rows : List CronRecord) (r : CronRecord)
    → get id rows ≡ some r
    → may_claim scheduled r ≡ false
    → winners id scheduled calls rows ≡ 0
unfolding winners
winners-none id scheduled [] rows r here may = refl
winners-none id scheduled (c ∷ calls) rows r here may =
    rw (claim_slot-lost c.now scheduled c.fired_at c.next_fire_at id rows r here may)
      (omega (arith, winners-none id scheduled calls rows r here may))

-- However many callers claim a slot of an enabled cron one after the other, and none of them names
-- the slot itself as the next, exactly one is told that it has it.
pub one_winner :
    (id : String) (scheduled : ℤ) (c : Claimant) (calls : List Claimant) (rows : List CronRecord)
    (r : CronRecord) (d : Document)
    → get id rows ≡ some r
    → r.json ≡ document d
    → may_claim scheduled r ≡ true
    → is_time c.next_fire_at scheduled ≡ false
    → winners id scheduled (c ∷ calls) rows ≡ 1
unfolding winners
one_winner id scheduled c calls rows r d here doc may other =
    let after = with_schedule c.now (some c.fired_at) c.next_fire_at d r in
    rw (claim_slot-won id rows r d here doc c.now scheduled c.fired_at c.next_fire_at may) (
      ap (λ n. 1 + n)
        (winners-none id scheduled calls (replace_row after rows) after
          (get-claimed id rows r d here doc c.now scheduled c.fired_at c.next_fire_at)
          (ground (arith, other))))

lookup-put_time_other :
    (j k : String) (t : Option ℤ) (d : Document)
    → (j == k) ≡ false
    → lookup j (put_time k t d) ≡ lookup j d
lookup-put_time_other j k none d h = lookup-remove_other j k d h
lookup-put_time_other j k (some z) d h = lookup-set_other j k (scalar (integer z)) d h

-- The value under a key that holds a time.
abbrev pub written : Option ℤ → Option Value
written none = none
written (some z) = some (scalar (integer z))

lookup-put_time_self :
    (k : String) (t : Option ℤ) (d : Document) → lookup k (put_time k t d) ≡ written t
lookup-put_time_self k none d = lookup-remove_self k d
lookup-put_time_self k (some z) d = lookup-set_self k (scalar (integer z)) d

-- Writing the times that stand in a document changes no key.
lookup-schedule_document :
    (j : String) (d : Document) (last next last' next' : Option ℤ)
    → lookup "lastFiredAt" d ≡ written last
    → lookup "nextFireAt" d ≡ written next
    → lookup j (schedule_document (schedule_document d last' next') last next) ≡ lookup j d
unfolding schedule_document
lookup-schedule_document j d last next last' next' h g = elim (Bool-cases (j == "nextFireAt")) [
  | inl e ↦ rw ((eq_iff j "nextFireAt").0 e) (lookup-put_time_self "nextFireAt" next _ ∙ sym g)
  | inr e ↦ elim (Bool-cases (j == "lastFiredAt")) [
    | inl f ↦ rw ((eq_iff j "lastFiredAt").0 f) (
        lookup-put_time_other "lastFiredAt" "nextFireAt" next _ refl
        ∙ lookup-put_time_self "lastFiredAt" last _
        ∙ sym h)
    | inr f ↦
        lookup-put_time_other j "nextFireAt" next _ e
        ∙ lookup-put_time_other j "lastFiredAt" last _ f
        ∙ lookup-put_time_other j "nextFireAt" next' _ e
        ∙ lookup-put_time_other j "lastFiredAt" last' _ f
  ]
]

-- A document as a map.
abbrev pub values : Document → String → Option Value
values d j = lookup j d

update_schedule-marked :
    (now expected : ℤ) (last next : Option ℤ) (id : String) (rows : List CronRecord)
    (r : CronRecord) (d : Document)
    → get id rows ≡ some r
    → r.json ≡ document d
    → may_mark expected r ≡ true
    → update_schedule now id expected last next false rows
      ≡ (replace_row (with_schedule now last next d r) rows, updated true)
unfolding update_schedule write_schedule
update_schedule-marked now expected last next id rows r d here doc may =
    rw (here, update_schedule) (rw may (rw (doc, write_schedule) refl))

-- The call succeeded, and the row of the id is the given one but for the time of its last update; its
-- document has the same value under every key.
abbrev pub Restored : ℤ → String → CronRecord → Document → List CronRecord × Updated → Type 0
Restored now id r d (rows, o) =
    (o ≡ updated true)
    × (d' : Document) × (get id rows ≡ some (record r { json = document d'; updated_at = now }))
    × (values d' ≡ values d)

-- UnclaimSlot takes back a ClaimSlot that succeeded: called with the times of the claim and the last
-- fire before it, it succeeds, and the cron is as before, where its document holds the times of its
-- columns.
pub unclaim_slot-claim_slot :
    (now now' scheduled fired : ℤ) (next : Option ℤ) (id : String) (rows : List CronRecord)
    (r : CronRecord) (d : Document)
    → get id rows ≡ some r
    → r.json ≡ document d
    → may_claim scheduled r ≡ true
    → lookup "lastFiredAt" d ≡ written r.last_fired_at
    → lookup "nextFireAt" d ≡ written (some scheduled)
    → Restored now' id r d (
        unclaim_slot now' id scheduled fired r.last_fired_at
          (claim_slot now id scheduled fired next rows).0)
unfolding unclaim_slot
unclaim_slot-claim_slot now now' scheduled fired next id rows r d here doc may last_at next_at =
    let claimed = with_schedule now (some fired) next d r in
    let after = schedule_document d (some fired) next in
    let back = with_schedule now' r.last_fired_at (some scheduled) after claimed in
    let due : r.next_fire_at ≡ some scheduled = ground (arith, may) in
    let got : get id (replace_row claimed rows) ≡ some claimed =
      get-claimed id rows r d here doc now scheduled fired next in
    let shown : back ≡ record r { json = back.json; updated_at = now' } = ground (arith, due) in
    rw (claim_slot-won id rows r d here doc now scheduled fired next may) (
      rw
        (update_schedule-marked now' fired r.last_fired_at (some scheduled) id
          (replace_row claimed rows) claimed after got refl (may_mark_last fired claimed refl))
        (
          refl,
          schedule_document after r.last_fired_at (some scheduled),
          get-replace_row id back claimed (replace_row claimed rows) got (get-id id r rows here)
              ∙ ap (λ q. some q) shown,
          fun_ext (λ j.
              lookup-schedule_document j d r.last_fired_at (some scheduled) (some fired) next
                last_at next_at),
        ))
