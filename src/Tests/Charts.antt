-- ===== src/Tests/Charts.antt =====
-- A Gantt chart (services/api/src/main.py) of the database in memory, and the theorem at it.
use workfront_system.Base.{◌≡◌, refl, some, [], ◌∷◌, ok, pos}
use workfront_system.Cascade.Types.{fs, update}
use workfront_system.Store.Tables.{Tables}
use workfront_system.Store.Memory.{memory}
use workfront_system.Ws.Manager.{new_manager, current_seq}
use workfront_system.Api.Schemas.{GanttOut, task_out}
use workfront_system.Api.Guards.{load_project}
use workfront_system.Api.Projects.{fresh_project, get_gantt}
use workfront_system.Api.Projects.Gantt.{Charts, get_gantt-Charts}
use workfront_system.Tests.Deliveries.{task, before}

abbrev planned : Tables
planned = record before { projects = update before.projects 7 (some (fresh_project 7 9 "plan")) }

abbrev gantt : GanttOut
gantt = record {
  project_id = 7;
  seq = 0;
  tasks = task_out (task 1 100 108 2) ∷ task_out (task 2 50 58 1) ∷ [];
  dependencies =
      record { id = 5; predecessor_id = 1; successor_id = 2; type = fs; lag_minutes = pos 0 } ∷ [];
}

answers : get_gantt memory planned new_manager 7 9 ≡ ok gantt
unfolding get_gantt load_project current_seq
answers = refl

get_gantt-Charts_example : Charts memory planned new_manager 7 9 gantt
get_gantt-Charts_example = get_gantt-Charts memory planned new_manager 7 9 answers
