-- ===== src/Daemon/Session/Threads/Execute.antt =====
-- The steps of a running operation together are `OpenProject::execute`, whatever the readings of its
-- flag were, and an operation whose flag is set before its second reading ends as cancelled.
use kesharon.Prelude.{
  zero, suc, ◌≡◌, refl, Bool, true, false, arith, if◌then◌else◌, Result, ok, err, ◌>>=◌,
}
use kesharon.Application.Error.{ApplicationError, cancelled}
use kesharon.Application.OpenProject.{OpenProjectCommand, build, execute}
use kesharon.Application.Ports.{
  RepositoryInspection, RepositoryService, IdGenerator, CancellationSignal,
}
use kesharon.Daemon.Session.Threads.{checking, inspecting, settled, advance_stage}

abbrev pub readings : Bool → Bool → CancellationSignal
readings first second = record { is_cancelled = elim [ zero ↦ first | suc n ↦ second ] }

module _ (service : RepositoryService) (ids : IdGenerator) (command : OpenProjectCommand) where
  pub from_inspection :
      (middle second : Bool) (r : Result RepositoryInspection ApplicationError)
      → service.inspect command.requested_path ≡ r
      → advance_stage second service ids command
          (advance_stage middle service ids command inspecting)
        ≡ settled (r >>= λ i. if second then err cancelled else build ids command i)
  unfolding advance_stage
  from_inspection middle second (ok i) e = ground (arith, e)
  from_inspection middle second (err x) e = ground (arith, e)

  -- Three steps of an operation, with the flag read as `first` and then as `second`, end at the
  -- result of `OpenProject::execute` under a signal with these readings.
  pub advance_stage-execute :
      (first middle second : Bool)
      → advance_stage second service ids command (
          advance_stage middle service ids command
            (advance_stage first service ids command checking))
        ≡ settled (execute service ids command (readings first second))
  unfolding advance_stage execute
  advance_stage-execute true middle second = refl
  advance_stage-execute false middle second =
      from_inspection middle second (service.inspect command.requested_path) refl
