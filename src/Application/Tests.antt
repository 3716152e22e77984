-- ===== src/Application/Tests.antt =====
-- `OpenProject::execute` at a concrete inspection.
use kesharon.Prelude.{◌≡◌, refl, false, ok, is_blank}
use kesharon.Application.Ports.{RepositoryService, IdGenerator, CancellationSignal}
use kesharon.Application.OpenProject.{
  OpenProjectCommand, build, execute, IsOpened, execute-IsOpened,
}
use kesharon.Domain.Project
use kesharon.Domain.Project.{Project, new_project_id}

abbrev service : RepositoryService
service = record {
  inspect = λ path. ok (record { canonical_root = "/work"; display_name = "work" });
}

abbrev ids : IdGenerator
ids = record { next_id = "p1" }

abbrev command : OpenProjectCommand
command = record { requested_path = "."; trusted = false }

abbrev quiet : CancellationSignal
quiet = record { is_cancelled = λ reading. false }

abbrev opened : Project
opened = record {
  id = record { as_str = "p1" };
  display_name = "work";
  canonical_root = "/work";
  trusted = false;
}

runs : execute service ids command quiet ≡ ok opened
unfolding execute build new_project_id Project.new is_blank
runs = refl

execute-IsOpened_example : IsOpened service ids command quiet opened
execute-IsOpened_example = execute-IsOpened service ids command quiet opened runs
