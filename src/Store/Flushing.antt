-- ===== src/Store/Flushing.antt =====
-- The flushes and insertions of the database in memory satisfy the laws of `Database`.
use Prim.Native.String.{String}
use text.Mathlib.TextPositions.{eq_refl}
use workfront_system.Base.{
  ℕ, ◌≡◌, ◌≢◌, refl, ap, ◌∙◌, subst, true, false, inl, inr, Option, some, none, List, [], ◌∷◌, ◌++◌,
  Memᴰ, map, arith, if◌then◌else◌, ◌==◌, ==_iff, ==_refl, contains, Bool-cases, ok, err,
  stale_data_error, integrity_error, Error, Outcome-cases, some-injective, sym, ok-injective,
}
use workfront_system.Store.Models.{Task, ProcessedEvent}
use workfront_system.Store.Database.{Dirty, bumped}
use workfront_system.Store.Tables.{
  Tables, own_id, stored, is_current, dirty_ids, can_flush, write_all, flush, get_processed,
  add_processed, insert_task, current_row, stored-some,
}

pub flush-ok :
    (s : Tables) (ds : List Dirty) {r : Tables × List Task}
    → flush s ds ≡ ok r
    → (can_flush (stored s) ds ≡ true)
      × ((record s { tasks = write_all ds s.tasks }, map bumped ds) ≡ r)
flush-ok s [] h = (refl, ok-injective h)
flush-ok s (d ∷ ds) h = elim (Bool-cases (can_flush (stored s) (d ∷ ds))) [
  | inl fits ↦ (fits, ok-injective (rw fits at h))
  | inr stale ↦ ground arith
]

contains-dirty_ids :
    (ds : List Dirty) (d : Dirty) → Memᴰ d ds → contains (dirty_ids ds) d.loaded.id ≡ true
contains-dirty_ids [] d m = elim m [ ]
contains-dirty_ids (x ∷ xs) d (Memᴰ.head e) = rw e (ground arith)
contains-dirty_ids (x ∷ xs) d (Memᴰ.tail m) = ground (arith, contains-dirty_ids xs d m)

can_flush-current :
    (tasks : ℕ → Option Task) (ds : List Dirty) (d : Dirty)
    → Memᴰ d ds
    → can_flush tasks ds ≡ true
    → is_current tasks d.loaded ≡ true
can_flush-current tasks [] d m h = elim m [ ]
can_flush-current tasks (x ∷ xs) d (Memᴰ.head e) h = rw e (ground arith)
can_flush-current tasks (x ∷ xs) d (Memᴰ.tail m) h = can_flush-current tasks xs d m (ground arith)

can_flush-id :
    (tasks : ℕ → Option Task) (ds : List Dirty) (d : Dirty)
    → Memᴰ d ds
    → can_flush tasks ds ≡ true
    → (d.now.id == d.loaded.id) ≡ true
can_flush-id tasks [] d m h = elim m [ ]
can_flush-id tasks (x ∷ xs) d (Memᴰ.head e) h = rw e (ground arith)
can_flush-id tasks (x ∷ xs) d (Memᴰ.tail m) h = can_flush-id tasks xs d m (ground arith)

write_all-mem :
    (tasks seen : ℕ → Option Task) (ds : List Dirty) (d : Dirty)
    → Memᴰ d ds
    → can_flush seen ds ≡ true
    → write_all ds tasks d.loaded.id ≡ some (bumped d)
write_all-mem tasks seen [] d m h = elim m [ ]
write_all-mem tasks seen (x ∷ xs) d (Memᴰ.head e) h = rw (← e) (rw (==_refl d.loaded.id))
write_all-mem tasks seen (x ∷ xs) d (Memᴰ.tail m) h =
    elim (Bool-cases (x.loaded.id == d.loaded.id)) [
      | inl same ↦
          let at = (==_iff x.loaded.id d.loaded.id).0 same in
          ground (arith, contains-dirty_ids xs d m, ap (contains (dirty_ids xs)) at)
      | inr other ↦ rw other (write_all-mem tasks seen xs d m (ground arith))
    ]

write_all-others :
    (tasks : ℕ → Option Task) (ds : List Dirty) (a : ℕ)
    → ((d : Dirty) → Memᴰ d ds → d.loaded.id ≢ a)
    → write_all ds tasks a ≡ tasks a
write_all-others tasks [] a h = refl
write_all-others tasks (x ∷ xs) a h =
    ground (arith, h x (Memᴰ.head refl), write_all-others tasks xs a (λ d m. h d (Memᴰ.tail m)))

pub flush-err :
    (s : Tables) (ds : List Dirty) (x : Error) → flush s ds ≡ err x → x ≡ stale_data_error
flush-err s [] x h = cc
flush-err s (d ∷ ds) x h = elim (Bool-cases (can_flush (stored s) (d ∷ ds))) [
  | inl fits ↦ ground arith
  | inr stale ↦ ground arith
]

get_processed-cons :
    (p : ProcessedEvent) (ps : List ProcessedEvent)
    → get_processed (p ∷ ps) p.consumer_group p.event_id ≡ true
get_processed-cons p ps = rw (eq_refl p.consumer_group, ==_refl p.event_id)

pub flush_guard_lem :
    (s : Tables) (ds : List Dirty) (r : Tables × List Task)
    → flush s ds ≡ ok r
    → (d : Dirty) → Memᴰ d ds
    → (row : Task) × (stored s d.loaded.id ≡ some row) × (row.version ≡ d.loaded.version)
flush_guard_lem s ds r h d m =
    current_row (stored s) d.loaded (can_flush-current (stored s) ds d m (flush-ok s ds h).0)

pub flush_stale_lem :
    (s : Tables) (d : Dirty) (row : Task)
    → stored s d.loaded.id ≡ some row
    → row.version ≢ d.loaded.version
    → flush s (d ∷ []) ≡ err stale_data_error
flush_stale_lem s d row found other = elim (Outcome-cases (flush s (d ∷ []))) [
  | inl (r, flushed) ↦
      let (row', found', same) = flush_guard_lem s (d ∷ []) r flushed d (Memᴰ.head refl) in
      absurd (other (ap (λ t. t.version) (some-injective (sym found ∙ found')) ∙ same))
  | inr (x, raised) ↦ raised ∙ ap err (flush-err s (d ∷ []) x raised)
]

pub flush_writes_lem :
    (s : Tables) (ds : List Dirty) (r : Tables × List Task)
    → flush s ds ≡ ok r
    → (d : Dirty) → Memᴰ d ds
    → stored r.0 d.loaded.id ≡ some (bumped d)
flush_writes_lem s ds r h d m =
    let (fits, same) = flush-ok s ds h in
    let (row, found, _) = flush_guard_lem s ds r h d m in
    subst (λ x. stored x.0 d.loaded.id ≡ some (bumped d)) same
      (rw (stored-some s d.loaded.id found) (
        ap (own_id d.loaded.id) (write_all-mem s.tasks (stored s) ds d m fits)
        ∙ rw (can_flush-id (stored s) ds d m fits) refl))

pub flush_others_lem :
    (s : Tables) (ds : List Dirty) (r : Tables × List Task)
    → flush s ds ≡ ok r
    → (a : ℕ) → ((d : Dirty) → Memᴰ d ds → d.loaded.id ≢ a)
    → stored r.0 a ≡ stored s a
flush_others_lem s ds r h a apart =
    subst (λ x. stored x.0 a ≡ stored s a) (flush-ok s ds h).1
      (ap (λ row. if contains s.task_ids a then own_id a row else none)
        (write_all-others s.tasks ds a apart))

pub processed_added_lem :
    (s : Tables) (p : ProcessedEvent)
    → get_processed s.processed p.consumer_group p.event_id ≡ false
    → (s' : Tables) × (add_processed s p ≡ ok s')
      × (get_processed s'.processed p.consumer_group p.event_id ≡ true)
      × (s'.outbox ≡ s.outbox)
      × ((a : ℕ) → stored s' a ≡ stored s a)
processed_added_lem s p h = (
  record s { processed = p ∷ s.processed },
  rw h,
  get_processed-cons p s.processed,
  refl,
  λ a. refl,
)

pub processed_kept_lem :
    (s : Tables) (p : ProcessedEvent) (s' : Tables)
    → add_processed s p ≡ ok s'
    → (g : String) (e : ℕ) → get_processed s.processed g e ≡ true
    → get_processed s'.processed g e ≡ true
processed_kept_lem s p s' h g e old =
    elim (Bool-cases (get_processed s.processed p.consumer_group p.event_id)) [
      | inl seen ↦ absurd (err≢ok (rw seen at h))
      | inr new ↦
          subst (λ x. get_processed x.processed g e ≡ true) (ok-injective (rw new at h))
            (ground (arith, old))
    ]
  where
    err≢ok : err integrity_error ≡ ok s' → ⊥
    err≢ok c = cc

contains-append-last :
    (ids : List ℕ) (b a : ℕ) → b ≢ a → contains (ids ++ b ∷ []) a ≡ contains ids a
contains-append-last [] b a apart = ground arith
contains-append-last (x ∷ ids) b a apart = ground (arith, contains-append-last ids b a apart)

pub insert_task-others :
    (s : Tables) (t : Task) (a : ℕ) → t.id ≢ a → stored (insert_task s t) a ≡ stored s a
insert_task-others s t a apart = elim (Bool-cases (t.id == a)) [
  | inl own ↦ absurd (apart ((==_iff t.id a).0 own))
  | inr other ↦ rw (other, contains-append-last s.task_ids t.id a apart)
]

contains-last : (ids : List ℕ) (a : ℕ) → contains (ids ++ a ∷ []) a ≡ true
contains-last [] a = ground arith
contains-last (x ∷ ids) a = ground (arith, contains-last ids a)

pub insert_task-stored : (s : Tables) (t : Task) → stored (insert_task s t) t.id ≡ some t
insert_task-stored s t = rw (contains-last s.task_ids t.id, ==_refl t.id, ==_refl t.id) refl
