-- ===== src/Application/OpenProject.antt =====
-- `OpenProject::execute` of crates/kesharon-application/src/lib.rs.
use kesharon.Prelude.{
  String, ◌≡◌, refl, inl, inr, Bool, false, arith, Bool-cases, if◌then◌else◌, is_blank, Result, ok,
  err, ◌>>=◌, map_err,
}
use kesharon.Application.Error.{ApplicationError, cancelled, invalid_project}
use kesharon.Application.Ports.{
  RepositoryInspection, RepositoryService, IdGenerator, CancellationSignal,
}
use kesharon.Domain.Project
use kesharon.Domain.Project.{Project, ProjectId, ProjectError, new_project_id}

pub record OpenProjectCommand : Type 0 where
  pub requested_path : String
  pub trusted : Bool

abbrev invalid : ProjectError → ApplicationError
invalid error = invalid_project (Project.to_string error)

-- What is built from an inspection: a fresh identifier and the project.
unfoldable pub build :
    IdGenerator → OpenProjectCommand → RepositoryInspection → Result Project ApplicationError
build ids command inspection = do
  id ← map_err invalid (new_project_id ids.next_id)
  map_err invalid (Project.new id inspection.display_name inspection.canonical_root command.trusted)

unfoldable pub execute :
    RepositoryService
    → IdGenerator
    → OpenProjectCommand
    → CancellationSignal
    → Result Project ApplicationError
execute service ids command signal = if signal.is_cancelled 0 then err cancelled else do
  inspection ← service.inspect command.requested_path
  if signal.is_cancelled 1 then err cancelled else build ids command inspection

-- What a project that was opened rests on.
pub record IsOpened (service : RepositoryService) (ids : IdGenerator) (command : OpenProjectCommand)
    (signal : CancellationSignal) (p : Project) : Type 0 where
  pub inspection : RepositoryInspection
  pub inspected : service.inspect command.requested_path ≡ ok inspection
  pub not_cancelled : (signal.is_cancelled 0 ≡ false) × (signal.is_cancelled 1 ≡ false)
  pub id : p.id.as_str ≡ ids.next_id
  pub display_name : p.display_name ≡ inspection.display_name
  pub canonical_root : p.canonical_root ≡ inspection.canonical_root
  pub trusted : p.trusted ≡ command.trusted
  pub id_present : is_blank p.id.as_str ≡ false
  pub name_present : is_blank p.display_name ≡ false
  pub root_present : is_blank p.canonical_root ≡ false

module _ (service : RepositoryService) (ids : IdGenerator) (command : OpenProjectCommand)
    (signal : CancellationSignal) where
  built :
      (i : RepositoryInspection) (p : Project)
      → service.inspect command.requested_path ≡ ok i
      → (signal.is_cancelled 0 ≡ false) × (signal.is_cancelled 1 ≡ false)
      → build ids command i ≡ ok p
      → IsOpened service ids command signal p
  unfolding build new_project_id Project.new
  built i p inspected quiet e = record {
    inspection = i;
    inspected = inspected;
    not_cancelled = quiet;
    id = ground arith;
    display_name = ground arith;
    canonical_root = ground arith;
    trusted = ground arith;
    id_present = ground arith;
    name_present = ground arith;
    root_present = ground arith;
  }

  after_inspection :
      (r : Result RepositoryInspection ApplicationError) (p : Project)
      → service.inspect command.requested_path ≡ r
      → signal.is_cancelled 0 ≡ false
      → (r >>= λ i. if signal.is_cancelled 1 then err cancelled else build ids command i) ≡ ok p
      → IsOpened service ids command signal p
  after_inspection (err e) p inspected first h = cc
  after_inspection (ok i) p inspected first h = elim (Bool-cases (signal.is_cancelled 1)) [
    | inl e ↦ cc (rw e at h)
    | inr e ↦ built i p inspected (first, e) (rw e at h)
  ]

  -- A project that `OpenProject::execute` gives rests on a successful inspection of the requested
  -- path and on two readings of the signal that found no cancellation; its name and root are the
  -- inspected ones, its identifier is the generated one, its trust is the command's, and none of the
  -- three texts is blank.
  pub execute-IsOpened :
      (p : Project)
      → execute service ids command signal ≡ ok p
      → IsOpened service ids command signal p
  unfolding execute
  execute-IsOpened p h = elim (Bool-cases (signal.is_cancelled 0)) [
    | inl e ↦ cc (rw e at h)
    | inr e ↦ after_inspection (service.inspect command.requested_path) p refl e (rw e at h)
  ]
