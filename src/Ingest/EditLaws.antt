-- ===== src/Ingest/EditLaws.antt =====
-- Queueing a source keeps one task for each id; removing one takes away its tasks and no others.
use mathlib.Core.Bool.{false≢true}
use knowlega.Base.{
  String, ◌≡◌, refl, sym, ap, ◌∙◌, ◌⊎◌, inl, inr, Bool, true, false, ◌||◌, none, some, List, [],
  ◌∷◌, ◌++◌, arith, ◌==◌, eq_iff, In, All, Bool-cases, Option-cases,
}
use knowlega.Base.Text.{trim_space}
use knowlega.Ingest.Queue.{
  IngestTask, is_pending, is_processing, Result, ok, err, bad_path, unreadable_source, stored,
  World, IngestQueue, save_queue, save_queue-stored, Files, same_source_path,
}
use knowlega.Ingest.Edit.{
  QueueOptions, refresh, new_task, Found, missing, busy, refreshed, behind, find_source, saved_task,
  store_found, queue_source, queue_ingest_source,
}
use knowlega.Ingest.RunLaws.{ids}

abbrev pub DistinctIds : List String → Type 0
DistinctIds [] = Unit
DistinctIds (i ∷ is) = (¬ In i is) × DistinctIds is

In-append : (j : String) (xs ys : List String) → In j (xs ++ ys) → In j xs ⊎ In j ys
In-append j [] ys h = inr h
In-append j (x ∷ xs) ys (inl e) = inl (inl e)
In-append j (x ∷ xs) ys (inr h) = elim (In-append j xs ys h) [ inl a ↦ inl (inr a) | inr b ↦ inr b ]

distinct-snoc :
    (xs : List String) (j : String) → DistinctIds xs → ¬ In j xs → DistinctIds (xs ++ j ∷ [])
distinct-snoc [] j d n = (λ h. h, tt)
distinct-snoc (x ∷ xs) j d n = (
  λ h. elim (In-append x xs (j ∷ []) h) [
    | inl a ↦ d.0 a
    | inr b ↦ elim b [ inl e ↦ n (inl (sym e)) | inr z ↦ z ]
  ],
  distinct-snoc xs j d.1 (λ h. n (inr h)),
)

abbrev pub InTasks : IngestTask → List IngestTask → Type 0
InTasks t [] = ⊥
InTasks t (u ∷ tasks) = (t ≡ u) ⊎ InTasks t tasks

-- One task, which is not processing, gives its place and its id to `t`; the others stay.
abbrev pub Replaced : IngestTask → List IngestTask → List IngestTask → Type 0
Replaced t [] tasks' = ⊥
Replaced t (u ∷ tasks) [] = ⊥
Replaced t (u ∷ tasks) (u' ∷ tasks') =
    ((u' ≡ t) × (t.id ≡ u.id) × (is_processing u.status ≡ false) × (tasks' ≡ tasks))
    ⊎ (u' ≡ u) × Replaced t tasks tasks'

Replaced-ids :
    (t : IngestTask) (tasks tasks' : List IngestTask)
    → Replaced t tasks tasks'
    → ids tasks' ≡ ids tasks
Replaced-ids t [] tasks' h = absurd h
Replaced-ids t (u ∷ tasks) [] h = absurd h
Replaced-ids t (u ∷ tasks) (u' ∷ tasks') (inl (new, same, idle, rest)) = rw (new, rest, same) refl
Replaced-ids t (u ∷ tasks) (u' ∷ tasks') (inr (kept, rest)) =
    rw kept (ap (λ l. u.id ∷ l) (Replaced-ids t tasks tasks' rest))

-- What the search of the queue says about the tasks: none is of the source; one of them is, and is
-- processing; or the tasks with one put back, of which `P` holds.
abbrev Says : (IngestTask → Type 0) → (IngestTask → Bool) → List IngestTask → Found → Type 0
Says P same tasks missing = All (λ t. same t ≡ false) tasks
Says P same tasks (busy u) = InTasks u tasks × (is_processing u.status ≡ true)
Says P same tasks (refreshed tasks' u) = Replaced u tasks tasks' × P u

Says-behind :
    (P : IngestTask → Type 0) (same : IngestTask → Bool) (t : IngestTask) (tasks : List IngestTask)
    (f : Found)
    → same t ≡ false
    → Says P same tasks f
    → Says P same (t ∷ tasks) (behind t f)
Says-behind P same t tasks missing e h = (e, h)
Says-behind P same t tasks (busy u) e h = (inr h.0, h.1)
Says-behind P same t tasks (refreshed tasks' u) e h = (inr (refl, h.0), h.1)

find_source-Says :
    (P : IngestTask → Type 0) (same : IngestTask → Bool) (put : IngestTask → IngestTask)
    (tasks : List IngestTask)
    → ((t : IngestTask) → (put t).id ≡ t.id)
    → ((t : IngestTask) → P (put t))
    → Says P same tasks (find_source same put tasks)
unfolding find_source
find_source-Says P same put [] keeps fine = tt
find_source-Says P same put (t ∷ tasks) keeps fine = elim (Bool-cases (same t)) [
  | inr e ↦ rw e (Says-behind P same t tasks _ e (find_source-Says P same put tasks keeps fine))
  | inl e ↦ rw e (elim (Bool-cases (is_processing t.status)) [
    | inl p ↦ rw p (inl refl, p)
    | inr p ↦ rw p (inl (refl, keeps t, p, refl), fine t)
  ])
]

-- A queue that tracks a task: its ids are distinct, and it is the old one, with the task in it and
-- processing; or the task is new, is `P`, and has the place of an old one or comes behind them.
abbrev pub Tracks : (IngestTask → Type 0) → List IngestTask → IngestTask → List IngestTask → Type 0
Tracks P tasks t tasks' =
    DistinctIds (ids tasks')
    × ((tasks' ≡ tasks) × InTasks t tasks × (is_processing t.status ≡ true)
        ⊎ P t × (Replaced t tasks tasks' ⊎ (tasks' ≡ tasks ++ t ∷ [])))

ids-snoc :
    (tasks : List IngestTask) (t : IngestTask) → ids (tasks ++ t ∷ []) ≡ ids tasks ++ t.id ∷ []
ids-snoc [] t = refl
ids-snoc (u ∷ tasks) t = ap (λ l. u.id ∷ l) (ids-snoc tasks t)

not-In_of :
    (j : String) (same : IngestTask → Bool) (tasks : List IngestTask)
    → ((t : IngestTask) → (t.id == j) ≡ true → same t ≡ true)
    → All (λ t. same t ≡ false) tasks
    → ¬ In j (ids tasks)
not-In_of j same [] finds h m = m
not-In_of j same (t ∷ tasks) finds h (inl e) =
    false≢true (sym h.0 ∙ finds t ((eq_iff t.id j).1 (sym e)))
not-In_of j same (t ∷ tasks) finds h (inr m) = not-In_of j same tasks finds h.1 m

-- What a save that succeeds has stored.
Stores : (IngestTask → Type 0) → List IngestTask → World × Result IngestTask → Type 0
Stores P tasks (w, err e) = Unit
Stores P tasks (w, ok t) =
    (q' : IngestQueue) × (w.queue_file ≡ stored q') × Tracks P tasks t q'.tasks

saved-Stores :
    (P : IngestTask → Type 0) (tasks tasks' : List IngestTask) (t : IngestTask) (w : World)
    → Tracks P tasks t tasks'
    → Stores P tasks (saved_task (save_queue w tasks') t)
unfolding Stores
saved-Stores P tasks tasks' t w h = elim (Bool-cases (save_queue w tasks').1) [
  | inl s ↦ rw s (record { version = 1; tasks = tasks' }, save_queue-stored w tasks' s, h)
  | inr s ↦ rw s tt
]

store_found-Stores :
    (P : IngestTask → Type 0) (same : IngestTask → Bool) (q : IngestQueue) (t : IngestTask)
    (f : Found) (w : World)
    → ((u : IngestTask) → (u.id == t.id) ≡ true → same u ≡ true)
    → P t
    → w.queue_file ≡ stored q
    → DistinctIds (ids q.tasks)
    → Says P same q.tasks f
    → Stores P q.tasks (store_found w q.tasks t f)
store_found-Stores P same q t missing w finds fine file d h =
    saved-Stores P q.tasks (q.tasks ++ t ∷ []) t w (
      rw (ids-snoc q.tasks t)
          (distinct-snoc (ids q.tasks) t.id d (not-In_of t.id same q.tasks finds h)),
      inr (fine, inr refl),
    )
store_found-Stores P same q t (busy u) w finds fine file d h =
    unfold Stores in (q, file, (d, inl (refl, h.0, h.1)))
store_found-Stores P same q t (refreshed tasks' u) w finds fine file d h =
    saved-Stores P q.tasks tasks' u w (rw (Replaced-ids u q.tasks tasks' h.0) d, inr (h.1, inl h.0))

Stores-ok :
    (P : IngestTask → Type 0) (tasks : List IngestTask) (o : World × Result IngestTask)
    (t : IngestTask)
    → Stores P tasks o
    → o.1 ≡ ok t
    → (q' : IngestQueue) × (o.0.queue_file ≡ stored q') × Tracks P tasks t q'.tasks
unfolding Stores
Stores-ok P tasks (w, err e) t h out = absurd (ground (arith, out))
Stores-ok P tasks (w, ok u) t h out = let same : u ≡ t = ground (arith, out) in rw same at h

-- A pending task with the absolute path of the source, the hash of its file, and the title.
abbrev pub Asked : Files → QueueOptions → IngestTask → Type 0
Asked fs opts t =
    (is_pending t.status ≡ true)
    × (fs.abs opts.source_path ≡ some t.source_path)
    × (fs.hash t.source_path ≡ some t.sha256)
    × (t.title ≡ opts.title)

module _ (fs : Files) (now : String) (opts : QueueOptions) (w : World) (q : IngestQueue) where
  abbrev of_source : String → IngestTask → Bool
  of_source abs t = t.id == fs.stable_id abs || same_source_path fs t.source_path abs

  queue_source-stored :
      (abs hash : String)
      → w.queue_file ≡ stored q
      → queue_source fs now opts abs hash w
        ≡ store_found w q.tasks
            (new_task now (fs.stable_id abs) abs opts.title hash)
            (find_source (of_source abs) (refresh now abs opts.title hash) q.tasks)
  unfolding queue_source
  queue_source-stored abs hash file = ground (arith, file)

  queue_source-Stores :
      (abs hash : String)
      → w.queue_file ≡ stored q
      → DistinctIds (ids q.tasks)
      → fs.abs opts.source_path ≡ some abs
      → fs.hash abs ≡ some hash
      → Stores (Asked fs opts) q.tasks (queue_source fs now opts abs hash w)
  queue_source-Stores abs hash file d is_abs is_hash = rw (queue_source-stored abs hash file) (
      store_found-Stores (Asked fs opts) (of_source abs) q
        (new_task now (fs.stable_id abs) abs opts.title hash) _ w (λ u h. ground arith)
        (refl, is_abs, is_hash, refl) file d
        (find_source-Says (Asked fs opts) (of_source abs) (refresh now abs opts.title hash) q.tasks
          (λ u. unfold refresh in refl) (λ u. unfold refresh in (refl, is_abs, is_hash, refl))))

  queue-Stores :
      w.queue_file ≡ stored q
      → DistinctIds (ids q.tasks)
      → Stores (Asked fs opts) q.tasks (queue_ingest_source fs now opts w)
  unfolding queue_ingest_source Stores
  queue-Stores file d = elim (Bool-cases (trim_space opts.project_path == "")) [
    | inl e ↦ rw e tt
    | inr e ↦ rw e (elim (Bool-cases (trim_space opts.source_path == "")) [
      | inl f ↦ rw f tt
      | inr f ↦ rw f (elim (Option-cases (fs.abs opts.source_path)) [
        | inl g ↦ rw g tt
        | inr (abs, g) ↦ stored_at abs g
      ])
    ])
  ]
    where
      stored_at :
          (abs : String)
          → fs.abs opts.source_path ≡ some abs
          → Stores (Asked fs opts) q.tasks (elim (fs.abs opts.source_path) [
            | none ↦ (w, err bad_path)
            | some p ↦ elim (fs.hash p) [
              | none ↦ (w, err unreadable_source)
              | some hash ↦ queue_source fs now opts p hash w
            ]
          ])
      stored_at abs g = elim (Option-cases (fs.hash abs)) [
        | inl h ↦ rw (g, h) (unfold Stores in tt)
        | inr (hash, h) ↦ rw (g, h) (queue_source-Stores abs hash file d g h)
      ]

  -- After a source has been queued into a stored queue of distinct ids, the ids of the stored queue are
  -- distinct, and it is the old one, with the answered task in it and processing; or the answered task
  -- is pending and has the absolute path of the source, the hash of its file and the title, and the
  -- stored queue is the old one with that task behind, or in the place of one with its id that was not
  -- processing.
  pub queue-Tracks :
      (t : IngestTask)
      → w.queue_file ≡ stored q
      → DistinctIds (ids q.tasks)
      → (queue_ingest_source fs now opts w).1 ≡ ok t
      → (q' : IngestQueue) × ((queue_ingest_source fs now opts w).0.queue_file ≡ stored q')
        × Tracks (Asked fs opts) q.tasks t q'.tasks
  queue-Tracks t file d out =
      Stores-ok (Asked fs opts) q.tasks (queue_ingest_source fs now opts w) t (queue-Stores file d)
        out
