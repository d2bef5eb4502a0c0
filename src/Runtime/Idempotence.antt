-- ===== src/Runtime/Idempotence.antt =====
-- Enqueue under an idempotency key.
use knowlega.Base.{
  ℕ, String, ◌≡◌, ◌≢◌, refl, sym, ◌∙◌, inl, inr, Bool, true, none, some, [], ◌∷◌, ◌++◌, arith, ◌==◌,
  eq_iff, eq_refl, any, Bool-cases, Option-cases,
}
use knowlega.Base.Text.{trim_space}
use knowlega.Runtime.Task.{RuntimeTask, EnqueueInput, null_if_empty}
use knowlega.Runtime.Store.{
  Table, ok, find_row, enqueue, insert_row, existing, new_row, new_id, same_request, kind_matches,
}

find_row-snoc_self :
    (p : RuntimeTask → Bool) (rows : Table) (t : RuntimeTask)
    → find_row p rows ≡ none
    → p t ≡ true
    → find_row p (rows ++ t ∷ []) ≡ some t
unfolding find_row
find_row-snoc_self p [] t h q = rw q
find_row-snoc_self p (x ∷ rows) t h q = elim (Bool-cases (p x)) [
  | inl e ↦ absurd (ground (arith, e))
  | inr e ↦ rw e (find_row-snoc_self p rows t (rw e at h) q)
]

-- Two rows for the same request.
record SameRequest (t u : RuntimeTask) : Type 0 where
  key : String
  of_t : t.idempotency_key ≡ some key
  of_u : u.idempotency_key ≡ some key
  kinds : u.kind ≡ t.kind

existing-same :
    (t u : RuntimeTask) (rows : Table) → SameRequest t u → existing u rows ≡ existing t rows
unfolding existing
existing-same t u rows s = rw (s.of_t, existing, s.of_u, s.kinds)

existing-find_row :
    (t : RuntimeTask) (key : String) (rows : Table)
    → t.idempotency_key ≡ some key
    → existing t rows ≡ find_row (same_request t.kind key) rows
unfolding existing
existing-find_row t key rows k = rw (k, existing)

existing-snoc :
    (t : RuntimeTask) (key : String) (rows : Table)
    → t.idempotency_key ≡ some key
    → existing t rows ≡ none
    → existing t (rows ++ t ∷ []) ≡ some t
existing-snoc t key rows k h =
    existing-find_row t key (rows ++ t ∷ []) k
    ∙ find_row-snoc_self (same_request t.kind key) rows t (sym (existing-find_row t key rows k) ∙ h)
        (ground (arith, k, eq_refl t.kind, eq_refl key))

null_if_empty-some : (s : String) → s ≢ "" → null_if_empty s ≡ some s
null_if_empty-some s h = ground (arith, eq_iff s "")

insert_again :
    (t u : RuntimeTask) (rows rows' : Table) (id : String) (b : Bool)
    → SameRequest t u
    → insert_row t rows ≡ (rows', ok (id, b))
    → insert_row u rows' ≡ (rows', ok (id, true))
unfolding insert_row
insert_again t u rows rows' id b s h = elim (Option-cases (existing t rows)) [
  | inr (w, e) ↦ ground (arith, h, e, existing-same t u rows s)
  | inl e ↦ elim (Bool-cases (any (λ x. x.id == t.id) rows)) [
    | inl taken ↦ absurd (ground (arith, h, e, taken))
    | inr new ↦ ground (
      arith,
      h,
      e,
      new,
      existing-snoc t s.key rows s.of_t e,
      existing-same t u (rows ++ t ∷ []) s,
    )
  ]
]

-- After an enqueue that succeeded under a key that is not empty, an enqueue of the same kind and
-- key with a valid payload, at any time and with any other content, adds no row, answers with the
-- id of the first, and says that it is a duplicate.
pub enqueue_again :
    (valid : String → Bool) (now later : ℕ) (uuid other : String) (input again : EnqueueInput)
    (rows rows' : Table) (id : String) (b : Bool)
    → enqueue valid now uuid input rows ≡ (rows', ok (id, b))
    → input.idempotency_key ≢ ""
    → again.idempotency_key ≡ input.idempotency_key
    → again.kind ≡ input.kind
    → valid again.payload ≡ true
    → enqueue valid later other again rows' ≡ (rows', ok (id, true))
unfolding enqueue new_row
enqueue_again valid now later uuid other input again rows rows' id b h nonempty key kind json =
    elim (Bool-cases (kind_matches (trim_space input.kind))) [
      | inr e ↦ absurd (ground (arith, h, e))
      | inl e ↦ elim (Bool-cases (valid input.payload)) [
        | inr f ↦ absurd (ground (arith, h, e, f))
        | inl f ↦
            rw (kind, e, json)
              (insert_again first second rows rows' id b same (ground (arith, h, e, f)))
      ]
    ]
  where
    first : RuntimeTask
    first = new_row now (new_id input.id uuid) (trim_space input.kind) input

    second : RuntimeTask
    second = new_row later (new_id again.id other) (trim_space input.kind) again

    same : SameRequest first second
    same = record {
      key = input.idempotency_key;
      of_t = unfold new_row in null_if_empty-some input.idempotency_key nonempty;
      of_u = unfold new_row in rw key (null_if_empty-some input.idempotency_key nonempty);
      kinds = unfold new_row in refl;
    }
