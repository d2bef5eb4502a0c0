-- ===== src/Secrets/Redeem.antt =====
-- How often a drop is redeemed.
use knowlega.Base.{
  ℕ, String, true, false, not, ◌≡◌, ◌≢◌, ◌⊎◌, refl, inl, inr, Option, none, some, List, [], ◌∷◌,
  ◌==◌, if◌then◌else◌, keep_if, arith, Bool-cases, Option-cases, eq_iff,
}
use knowlega.Secrets.Drops.{
  SecretDrop, Db, is_expired, find_drop, peek, delete_drop, redeem_select, redeem_commit, redeem,
}

find_drop-deleted :
    (id : String) (drops : List SecretDrop)
    → find_drop id (keep_if (λ d. not (d.id == id)) drops) ≡ none
unfolding find_drop
find_drop-deleted id [] = refl
find_drop-deleted id (d ∷ drops) = elim (Bool-cases (d.id == id)) [
  | inl e ↦ rw e (find_drop-deleted id drops)
  | inr e ↦ rw e (rw e (find_drop-deleted id drops))
]

find_drop-other :
    (id j : String) (drops : List SecretDrop)
    → (j == id) ≡ false
    → find_drop j (keep_if (λ d. not (d.id == id)) drops) ≡ find_drop j drops
unfolding find_drop
find_drop-other id j [] other = refl
find_drop-other id j (d ∷ drops) other = elim (Bool-cases (d.id == id)) [
  | inl e ↦
      let apart : (d.id == j) ≡ false =
        ground (arith, e, other, eq_iff d.id id, eq_iff d.id j, eq_iff j id) in
      rw e (rw apart (find_drop-other id j drops other))
  | inr e ↦ rw e (elim (Bool-cases (d.id == j)) [
    | inl f ↦ rw f refl
    | inr f ↦ rw f (find_drop-other id j drops other)
  ])
]

-- Redeem answered a drop that is in the table and has not expired; if it may be redeemed once, no
-- later call finds it, and if it may be redeemed again, the table is as it was.
abbrev pub Redeemed : ℕ → ℕ → String → Db → SecretDrop → Db → Type 0
Redeemed now later id db d db' =
    (find_drop id db.drops ≡ some d)
    × (is_expired now d ≡ false)
    × ((d.grant_mode ≢ "once") ⊎ (redeem later id db' ≡ (db', none)))
    × ((d.grant_mode ≡ "once") ⊎ (db' ≡ db))

-- What Redeem answers, in either case; other drops are found as before.
abbrev pub Outcome : ℕ → ℕ → String → String → Db → Db × Option SecretDrop → Type 0
Outcome now later id j db (db', none) =
    (db' ≡ db)
    × ((find_drop id db.drops ≡ none)
        ⊎ ((d : SecretDrop) × (find_drop id db.drops ≡ some d) × (is_expired now d ≡ true)))
Outcome now later id j db (db', some d) =
    Redeemed now later id db d db' × (find_drop j db'.drops ≡ find_drop j db.drops)

once_cases : (s : String) → (s ≡ "once") ⊎ (s ≢ "once")
once_cases s = ground (arith, eq_iff s "once")

redeem-deleted :
    (now : ℕ) (id : String) (db : Db)
    → redeem now id (delete_drop id db) ≡ (delete_drop id db, none)
unfolding redeem redeem_select redeem_commit peek
redeem-deleted now id db = rw (find_drop-deleted id db.drops, peek, redeem_commit) refl

redeem_found :
    (now : ℕ) (id : String) (db : Db) (d : SecretDrop)
    → find_drop id db.drops ≡ some d
    → is_expired now d ≡ false
    → redeem now id db ≡ ((if d.grant_mode == "once" then delete_drop id db else db), some d)
unfolding redeem redeem_select redeem_commit peek
redeem_found now id db d found fresh = rw (found, peek, redeem_commit) (rw fresh refl)

redeem-live :
    (now later : ℕ) (id j : String) (db : Db) (d : SecretDrop)
    → (j == id) ≡ false
    → find_drop id db.drops ≡ some d
    → is_expired now d ≡ false
    → Outcome now later id j db (redeem now id db)
redeem-live now later id j db d other found fresh =
    rw (redeem_found now id db d found fresh) (elim (Bool-cases (d.grant_mode == "once")) [
      | inl once ↦ rw once (
        (found, fresh, inr (redeem-deleted later id db), inl ((eq_iff d.grant_mode "once").0 once)),
        find_drop-other id j db.drops other,
      )
      | inr more ↦
          let standing : d.grant_mode ≢ "once" = ground (arith, more, eq_iff d.grant_mode "once") in
          rw more ((found, fresh, inl standing, inr refl), refl)
    ])

-- Redeem answers a drop exactly when there is one that has not expired. A drop that may be redeemed
-- once is then gone, so that no later call answers it; a standing one stays, and nothing changes. The
-- other drops are found as before.
pub redeem-Outcome :
    (now later : ℕ) (id j : String) (db : Db)
    → (j == id) ≡ false
    → Outcome now later id j db (redeem now id db)
unfolding redeem redeem_select redeem_commit peek
redeem-Outcome now later id j db other = elim (Option-cases (find_drop id db.drops)) [
  | inl e ↦ rw (e, peek, redeem_commit) (refl, inl e)
  | inr (d, e) ↦ elim (Bool-cases (is_expired now d)) [
    | inl old ↦ rw (e, peek, redeem_commit) (rw old (refl, inr (d, e, old)))
    | inr fresh ↦ redeem-live now later id j db d other e fresh
  ]
]

-- The answers of two calls whose SELECTs both come before the first of them commits. The second
-- DELETE waits for the first commit and then deletes no row.
unfoldable pub race : ℕ → ℕ → String → Db → Option SecretDrop × Option SecretDrop
race now now' id db =
    let mine = redeem_select now id db in
    let yours = redeem_select now' id db in
    let after = redeem_commit id mine db in (after.1, (redeem_commit id yours after.0).1)

-- Two overlapping calls for a drop that has not expired both answer it, also where it may be redeemed
-- once.
pub race-both :
    (now now' : ℕ) (id : String) (db : Db) (d : SecretDrop)
    → find_drop id db.drops ≡ some d
    → is_expired now d ≡ false
    → is_expired now' d ≡ false
    → race now now' id db ≡ (some d, some d)
unfolding race redeem_select redeem_commit peek
race-both now now' id db d found fresh fresh' =
    rw (found, peek, redeem_commit) (rw (fresh, fresh') refl)
