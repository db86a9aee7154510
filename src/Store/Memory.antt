-- ===== src/Store/Memory.antt =====
-- A database in memory that satisfies the laws of `Database`: it shows that they can hold together,
-- and runs the services' code in the tests. It is no model of code of the repository.
use workfront_system.Base.{inl, ◌∙◌, ok-injective, refl, sym, ap, some, [], ◌∷◌, ◌++◌, ok}
use workfront_system.Cascade.Types.{update}
use workfront_system.Store.Database.{Database}
use workfront_system.Store.Tables.{
  Tables, stored, stored-id, insert_task, flush, get_processed, add_processed,
}
use workfront_system.Store.Flushing.{
  insert_task-others, insert_task-stored, flush-ok, flush-err, flush_stale_lem, flush_guard_lem,
  flush_writes_lem, flush_others_lem, processed_added_lem, processed_kept_lem,
}
use workfront_system.Store.Selection.{
  predecessors_into, edges_selected_lem, edges_complete_lem, tasks_of_project, tasks_selected_lem,
  tasks_complete_lem,
}
use workfront_system.Store.Deletion.{
  delete_task, delete_guard_lem, delete_below_lem, delete_others_lem, delete_outbox_lem,
}

abbrev pub memory : Database
memory = record {
  State = Tables;
  get_task = stored;
  get_project = λ s a. s.projects a;
  get_processed = λ s g e. get_processed s.processed g e;
  tasks_of_project = tasks_of_project;
  predecessors_into = predecessors_into;
  outbox = λ s. s.outbox;
  flush = flush;
  delete_task = delete_task;
  add_customer = λ s c. ok (record s { customers = c ∷ s.customers });
  add_project = λ s p. ok (record s { projects = update s.projects p.id (some p) });
  add_task = λ s t. ok (insert_task s t);
  add_predecessor = λ s e. ok (record s { predecessors = s.predecessors ++ e ∷ [] });
  add_outbox = λ s o. record s { outbox = s.outbox ++ o ∷ [] };
  add_processed = add_processed;
  get_task_id = stored-id;
  tasks_selected = tasks_selected_lem;
  tasks_complete = tasks_complete_lem;
  edges_selected = edges_selected_lem;
  edges_complete = edges_complete_lem;
  flush_guard = flush_guard_lem;
  flush_rows = λ s ds r h. sym (ap (λ x. x.1) (flush-ok s ds h).1);
  flush_writes = flush_writes_lem;
  flush_others = flush_others_lem;
  flush_stale = flush_stale_lem;
  flush_fails = λ s ds x h. inl (flush-err s ds x h);
  flush_nothing = λ s. refl;
  flush_outbox = λ s ds r h. sym (ap (λ x. x.0.outbox) (flush-ok s ds h).1);
  flush_processed =
      λ s ds r h g e. sym (ap (λ x. get_processed x.0.processed g e) (flush-ok s ds h).1);
  customer_added = λ s c s' h a. sym (ap (λ x. stored x a) (ok-injective h));
  project_added = λ s p s' h a. sym (ap (λ x. stored x a) (ok-injective h));
  task_added = λ s t s' h a apart.
      sym (ap (λ x. stored x a) (ok-injective h)) ∙ insert_task-others s t a apart;
  task_inserted =
      λ s t s' h. sym (ap (λ x. stored x t.id) (ok-injective h)) ∙ insert_task-stored s t;
  predecessor_added = λ s e s' h a. sym (ap (λ x. stored x a) (ok-injective h));
  delete_guard = delete_guard_lem;
  delete_below = delete_below_lem;
  delete_others = delete_others_lem;
  delete_outbox = delete_outbox_lem;
  processed_unique = λ s p h. rw h;
  processed_added = processed_added_lem;
  processed_kept = processed_kept_lem;
  outbox_added = λ s o. (refl, λ a. refl, λ g e. refl);
}
