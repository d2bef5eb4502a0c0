-- ===== src/Runtime/Claim.antt =====
-- Claim of RuntimeTaskRepository: the oldest task of the highest priority, one at a time for each
-- serial key.
use knowlega.Base.{
  ℕ, suc, ◌+◌, String, Bool, false, not, ◌&&◌, ◌||◌, Option, none, some, List, [], ◌∷◌, ◌==◌, ltb,
  leb, ◌=ℕ◌, if◌then◌else◌, any, elem, length,
}
use knowlega.Base.Int.{ltz}
use knowlega.Base.Text.{trim_space}
use knowlega.Runtime.Task.{running, is_pending, is_running, RuntimeTask, ClaimedTask, holds}
use knowlega.Runtime.Store.{
  Result, ok, err, no_owner, no_kinds, bad_kind, bad_ttl, Table, unix_milli, update_where,
  kind_matches,
}

-- The candidates of the subquery of Claim. `seen` is the snapshot that NOT EXISTS reads, `locked`
-- the rows that FOR UPDATE SKIP LOCKED passes over.
abbrev pub serial_busy : Table → RuntimeTask → Bool
serial_busy seen t = elim t.serial_key [
  | none ↦ false
  | some key ↦ any (λ u. holds key u.serial_key && is_running u.status) seen
]

unfoldable pub is_candidate : (String → Bool) → Table → ℕ → List String → RuntimeTask → Bool
is_candidate locked seen now kinds t =
    is_pending t.status
    && leb t.available_at now
    && elem t.kind kinds
    && not (serial_busy seen t)
    && not (locked t.id)

-- ORDER BY priority DESC,available_at ASC,created_at ASC: `t` comes strictly before `u`.
unfoldable pub comes_before : RuntimeTask → RuntimeTask → Bool
comes_before t u =
    ltz u.priority t.priority
    || (not (ltz t.priority u.priority)
        && (ltb t.available_at u.available_at
            || (t.available_at =ℕ u.available_at && ltb t.created_at u.created_at)))

unfoldable pub better : RuntimeTask → Option RuntimeTask → Option RuntimeTask
better t none = some t
better t (some u) = if comes_before u t then some u else some t

-- LIMIT 1; of rows that compare equal the first in the table.
unfoldable pub first_candidate : (RuntimeTask → Bool) → Table → Option RuntimeTask
unfolding better
first_candidate p [] = none
first_candidate p (t ∷ rows) =
    let rest = first_candidate p rows in if p t then better t rest else rest

-- COALESCE(started_at,$4)
abbrev pub coalesce : Option ℕ → ℕ → Option ℕ
coalesce none n = some n
coalesce (some m) n = some m

unfoldable pub lease_to : String → String → ℕ → ℕ → RuntimeTask → RuntimeTask
lease_to token owner expires now t = record t {
  status = running;
  attempts = suc t.attempts;
  lease_token = some token;
  lease_owner = some owner;
  lease_expires_at = some expires;
  started_at = coalesce t.started_at now;
  updated_at = now;
}

-- The unique index on serial_key where status is running.
abbrev pub same_serial : Option String → Option String → Bool
same_serial none k = false
same_serial (some s) k = holds s k

abbrev pub clash : RuntimeTask → RuntimeTask → Bool
clash t u = is_running t.status && is_running u.status && same_serial t.serial_key u.serial_key

unfoldable pub serial_violated : Table → Bool
serial_violated [] = false
serial_violated (t ∷ rows) = any (clash t) rows || serial_violated rows

-- A violation of the unique index (23505) is answered as "no task".
unfoldable pub claim_row :
    String → String → ℕ → ℕ → RuntimeTask → Table → Table × Result (Option ClaimedTask)
unfolding update_where lease_to serial_violated
claim_row token owner expires now t rows =
    let rows' = update_where (λ u. u.id == t.id) (lease_to token owner expires now) rows in
    if serial_violated rows' then (rows, ok none) else (
      rows',
      ok (
          some (record {
            task = lease_to token owner expires now t;
            lease_token = token;
            lease_owner = owner;
          })),
    )

-- The claim when the arguments have passed the checks.
unfoldable pub claim_checked :
    (String → Bool)
    → Table
    → ℕ
    → String
    → String
    → List String
    → ℕ
    → Table
    → Table × Result (Option ClaimedTask)
unfolding claim_row first_candidate is_candidate
claim_checked locked seen now token owner kinds ttl rows =
    elim (first_candidate (is_candidate locked seen (unix_milli now) kinds) rows) [
      | none ↦ (rows, ok none)
      | some t ↦ claim_row token owner (unix_milli now + unix_milli ttl) (unix_milli now) t rows
    ]

unfoldable pub claim :
    (String → Bool)
    → Table
    → ℕ
    → String
    → String
    → List String
    → ℕ
    → Table
    → Table × Result (Option ClaimedTask)
unfolding claim_checked
claim locked seen now token owner kinds ttl rows =
    let owner = trim_space owner in
    if owner == ""
    then (rows, err no_owner)
    else if length kinds =ℕ 0
    then (rows, err no_kinds)
    else if any (λ k. not (kind_matches k)) kinds
    then (rows, err bad_kind)
    else if ttl =ℕ 0
    then (rows, err bad_ttl)
    else claim_checked locked seen now token owner kinds ttl rows
