-- ===== src/Api/Guards/Cases.antt =====
-- What the guards of services/api/src/main.py let through, and with what they refuse.
use workfront_system.Base.{
  ℕ, suc, ◌≡◌, ◌≢◌, refl, sym, ap, ◌∙◌, subst, true, false, inl, inr, Option, some, none, [], ◌∷◌,
  Memᴰ, ◌==◌, ==_iff, ==_refl, Bool-cases, Option-cases, Outcome-cases, Error, ok, err, ◌⊎◌,
  stale_data_error, integrity_error, dbapi_error, http_exception, >>=-eq-ok, ok-injective,
  err-injective,
}
use workfront_system.Store.Models.{Task, Project}
use workfront_system.Store.Database.{Database, Dirty, bumped}
use workfront_system.Api.Guards.{
  require_match, is_same, dirty_objects, refreshed, load_task, load_project, flush_task,
}

pub require_match-ok :
    (v : ℕ) (if_match : Option ℕ) {u : Unit {0}}
    → require_match v if_match ≡ ok u
    → if_match ≡ some v
unfolding require_match
require_match-ok v none h = cc
require_match-ok v (some w) h = elim (Bool-cases (v == w)) [
  | inl same ↦ ap some (sym ((==_iff v w).0 same))
  | inr other ↦ absurd (ok≢err (rw other at h))
]
  where
    ok≢err : {u : Unit {0}} → err (http_exception 409) ≡ ok u → ⊥
    ok≢err e = cc

pub require_match-pass : (v : ℕ) → require_match v (some v) ≡ ok tt
unfolding require_match
require_match-pass v = rw (==_refl v)

pub require_match-stale : (v w : ℕ) → v ≢ w → require_match v (some w) ≡ err (http_exception 409)
unfolding require_match
require_match-stale v w h = elim (Bool-cases (v == w)) [
  | inl same ↦ absurd (h ((==_iff v w).0 same))
  | inr other ↦ rw other
]

module _ (db : Database) where
  open db use {State, get_task, get_project, outbox}

  pub load_task-ok :
      (s : State) (a c : ℕ) {t : Task}
      → load_task db s a c ≡ ok t
      → (get_task s a ≡ some t) × (t.customer_id ≡ c)
  unfolding load_task
  load_task-ok s a c {t} h = elim (Option-cases (get_task s a)) [
    | inl gone ↦ absurd (err≢ok (rw (load_task, gone) at h))
    | inr (row, found) ↦ elim (Bool-cases (row.customer_id == c)) [
      | inl own ↦
          let same = ok-injective (rw (load_task, found, own) at h) in
          (
            found ∙ ap some same,
            sym (ap (λ r. r.customer_id) same) ∙ (==_iff row.customer_id c).0 own,
          )
      | inr foreign ↦ absurd (err≢ok (rw (load_task, found, foreign) at h))
    ]
  ]
    where
      err≢ok : err (http_exception 404) ≡ ok t → ⊥
      err≢ok e = cc

  pub load_project-ok :
      (s : State) (a c : ℕ) {p : Project}
      → load_project db s a c ≡ ok p
      → (get_project s a ≡ some p) × (p.customer_id ≡ c)
  unfolding load_project
  load_project-ok s a c {p} h = elim (Option-cases (get_project s a)) [
    | inl gone ↦ absurd (err≢ok (rw (load_project, gone) at h))
    | inr (row, found) ↦ elim (Bool-cases (row.customer_id == c)) [
      | inl own ↦
          let same = ok-injective (rw (load_project, found, own) at h) in
          (
            found ∙ ap some same,
            sym (ap (λ r. r.customer_id) same) ∙ (==_iff row.customer_id c).0 own,
          )
      | inr foreign ↦ absurd (err≢ok (rw (load_project, found, foreign) at h))
    ]
  ]
    where
      err≢ok : err (http_exception 404) ≡ ok p → ⊥
      err≢ok e = cc

  pub load_task-pass :
      (s : State) (a : ℕ) (t : Task) → get_task s a ≡ some t → load_task db s a t.customer_id ≡ ok t
  unfolding load_task
  load_task-pass s a t found = rw (load_task, found, ==_refl t.customer_id)

  pub load_task-own :
      (s : State) (a : ℕ) (t : Task) {customer_id : ℕ}
      → get_task s a ≡ some t
      → t.customer_id ≡ customer_id
      → load_task db s a customer_id ≡ ok t
  load_task-own s a t found owned =
      subst (λ c. load_task db s a c ≡ ok t) owned (load_task-pass s a t found)

  -- A flush of one changed task: the row still had the version that was loaded, it has the next one
  -- now, and nothing else has changed.
  pub record Flushed (s : State) (t t' : Task) (s' : State) (moved : Task) : Type 0 where
    pub current : (row : Task) × (get_task s t.id ≡ some row) × (row.version ≡ t.version)
    pub next : moved ≡ record t' { version = suc t.version }
    pub saved : get_task s' t.id ≡ some moved
    pub others : (a : ℕ) → t.id ≢ a → get_task s' a ≡ get_task s a

  pub flush_task-Flushed :
      (s : State) (t t' : Task) {s' : State} {moved : Task}
      → is_same t t' ≡ false
      → flush_task db s t t' ≡ ok (s', moved)
      → Flushed s t t' s' moved × (outbox s' ≡ outbox s)
  unfolding flush_task
  flush_task-Flushed s t t' {s'} {moved} changed h =
      let d : Dirty = record { loaded = t; now = t' } in
      let (r, flushed, done) = >>=-eq-ok (db.flush s (d ∷ [])) _ (rw changed at h) in
      let same = ok-injective done in
      let rows = db.flush_rows s (d ∷ []) r flushed in
      let next : moved ≡ bumped d = sym (ap (λ x. x.1) same) ∙ ap (refreshed t') rows in
      let state : r.0 ≡ s' = ap (λ x. x.0) same in
      (
        record {
          current = db.flush_guard s (d ∷ []) r flushed d (Memᴰ.head refl);
          next = next;
          saved =
              ap (λ x. get_task x t.id) (sym state)
              ∙ db.flush_writes s (d ∷ []) r flushed d (Memᴰ.head refl)
              ∙ ap some (sym next);
          others = λ a apart.
              ap (λ x. get_task x a) (sym state)
              ∙ db.flush_others s (d ∷ []) r flushed a (only d a apart);
        },
        ap outbox (sym state) ∙ db.flush_outbox s (d ∷ []) r flushed,
      )
    where
      only : (d : Dirty) (a : ℕ) → d.loaded.id ≢ a → (x : Dirty) → Memᴰ x (d ∷ []) → x.loaded.id ≢ a
      only d a apart x (Memᴰ.head e) = subst (λ y. y.loaded.id ≢ a) (sym e) apart
      only d a apart x (Memᴰ.tail m) = elim m [ ]

  -- Where no column has changed, nothing is written.
  pub flush_task-clean :
      (s : State) (t t' : Task) {s' : State} {now : Task}
      → is_same t t' ≡ true
      → flush_task db s t t' ≡ ok (s', now)
      → (s' ≡ s) × (now ≡ t')
  unfolding flush_task
  flush_task-clean s t t' clean h =
      let (r, flushed, done) = >>=-eq-ok (db.flush s []) _ (rw clean at h) in
      let nothing = ok-injective (sym flushed ∙ db.flush_nothing s) in
      let ends = sym (ok-injective done) in
      (
        ap (λ x. x.0) ends ∙ ap (λ x. x.0) nothing,
        ap (λ x. x.1) ends ∙ ap (λ x. refreshed t' x.1) nothing,
      )

  pub flush_task-fails :
      (s : State) (t t' : Task) {x : Error}
      → flush_task db s t t' ≡ err x
      → (x ≡ stale_data_error) ⊎ (x ≡ integrity_error) ⊎ (x ≡ dbapi_error)
  unfolding flush_task
  flush_task-fails s t t' {x} h = elim (Outcome-cases (db.flush s (dirty_objects t t'))) [
    | inl (r, flushed) ↦ absurd (ok≢err (rw (flush_task, flushed) at h))
    | inr (y, raised) ↦
        let fails = db.flush_fails s (dirty_objects t t') y raised in
        subst (λ z. (z ≡ stale_data_error) ⊎ (z ≡ integrity_error) ⊎ (z ≡ dbapi_error))
          (err-injective (rw (flush_task, raised) at h)) fails
  ]
    where
      ok≢err : {r : State × Task} → ok r ≡ err x → ⊥
      ok≢err e = cc

  -- A row that has another version by now makes the flush raise StaleDataError.
  pub flush_task-stale :
      (s : State) (t t' row : Task)
      → is_same t t' ≡ false
      → get_task s t.id ≡ some row
      → row.version ≢ t.version
      → flush_task db s t t' ≡ err stale_data_error
  unfolding flush_task
  flush_task-stale s t t' row changed found other =
      rw (flush_task, changed, db.flush_stale s (record { loaded = t; now = t' }) row found other)
