-- ===== src/Api/Projects/Gantt.antt =====
-- What a Gantt chart that is answered shows (services/api/src/main.py, `get_gantt`).
use workfront_system.Base.{
  ℕ, ◌≡◌, refl, ap, ◌∙◌, subst, some, List, [], ◌∷◌, map, Memᴰ, map-mem, mem-map, ok, >>=-eq-ok,
  ok-injective,
}
use mathlib.Core.List.Memᴰ
use workfront_system.Store.Models.{Task, Project, Predecessor}
use workfront_system.Store.Database.{Database}
use workfront_system.Ws.Manager.{ConnectionManager, current_seq}
use workfront_system.Api.Schemas.{GanttOut, TaskOut, PredecessorOut, task_out, predecessor_out}
use workfront_system.Api.Guards.{load_project}
use workfront_system.Api.Guards.Cases.{load_project-ok}
use workfront_system.Api.Projects.{dependencies_of, get_gantt}

module _ (db : Database) where
  open db use {State, get_task, get_project, tasks_of_project, predecessors_into}

  pub record Charts (s : State) (m : ConnectionManager) (project_id customer_id : ℕ) (g : GanttOut)
      : Type 0 where
    pub owned : (p : Project) × (get_project s project_id ≡ some p) × (p.customer_id ≡ customer_id)
    pub numbered : (g.project_id ≡ project_id) × (g.seq ≡ current_seq m project_id)
    pub sound :
        (out : TaskOut)
        → Memᴰ out g.tasks
        → (t : Task) × (get_task s t.id ≡ some t) × (t.project_id ≡ project_id) × (task_out t ≡ out)
    pub complete :
        (a : ℕ) (t : Task)
        → get_task s a ≡ some t
        → t.project_id ≡ project_id
        → Memᴰ (task_out t) g.tasks
    pub linked :
        (e : PredecessorOut)
        → Memᴰ e g.dependencies
        → (out : TaskOut) × Memᴰ out g.tasks × (out.id ≡ e.successor_id)
    pub all_links :
        (e : Predecessor) (others : List ℕ) (out : TaskOut)
        → Memᴰ e (predecessors_into s others)
        → Memᴰ out g.tasks
        → out.id ≡ e.successor_id
        → Memᴰ (predecessor_out e) g.dependencies

  -- An empty selection needs no query.
  dependencies_of-sound :
      (s : State) (ids : List ℕ) (e : Predecessor)
      → Memᴰ e (dependencies_of db s ids)
      → Memᴰ e.successor_id ids
  dependencies_of-sound s [] e m = elim m [ ]
  dependencies_of-sound s (a ∷ ids) e m = db.edges_selected s (a ∷ ids) e m

  dependencies_of-complete :
      (s : State) (ids others : List ℕ) (e : Predecessor)
      → Memᴰ e (predecessors_into s others)
      → Memᴰ e.successor_id ids
      → Memᴰ e (dependencies_of db s ids)
  dependencies_of-complete s [] others e m listed = absurd (Memᴰ.not-nil listed)
  dependencies_of-complete s (a ∷ ids) others e m listed =
      db.edges_complete s (a ∷ ids) others e m listed

  -- A chart is answered to the project's customer only. It carries the project's number, it shows
  -- exactly the tasks that are in the project, as they are stored, and exactly the dependencies into
  -- these tasks.
  pub get_gantt-Charts :
      (s : State) (m : ConnectionManager) (project_id customer_id : ℕ) {g : GanttOut}
      → get_gantt db s m project_id customer_id ≡ ok g
      → Charts s m project_id customer_id g
  unfolding get_gantt
  get_gantt-Charts s m project_id customer_id h =
      let (p, found, done) = >>=-eq-ok (load_project db s project_id customer_id) _ h in
      let (loaded, owned) = load_project-ok db s project_id customer_id found in
      let tasks = tasks_of_project s project_id in
      let ids = map (λ t. t.id) tasks in
      subst (Charts s m project_id customer_id) (ok-injective done) (record {
        owned = (p, loaded, owned);
        numbered = (refl, refl);
        sound = λ out listed.
            let (t, selected, same) = map-mem task_out tasks out listed in
            let (is, within) = db.tasks_selected s project_id t selected in (t, is, within, same);
        complete = λ a t is within.
            mem-map task_out tasks t
              (subst (λ x. Memᴰ t (tasks_of_project s x)) within (db.tasks_complete s a t is));
        linked = λ e listed.
            let (x, selected, same) = map-mem predecessor_out (dependencies_of db s ids) e listed in
            let (t, there, at) =
              map-mem (λ t. t.id) tasks x.successor_id (dependencies_of-sound s ids x selected) in
            (task_out t, mem-map task_out tasks t there, at ∙ ap (λ y. y.successor_id) same);
        all_links = λ e others out selected listed at.
            let (t, there, same) = map-mem task_out tasks out listed in
            mem-map predecessor_out (dependencies_of db s ids) e (
              dependencies_of-complete s ids others e selected (
                subst (λ x. Memᴰ x ids) (ap (λ y. y.id) same ∙ at)
                  (mem-map (λ y. y.id) tasks t there)));
      })
