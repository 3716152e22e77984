-- ===== src/Daemon/Repository.antt =====
-- The inspection of a directory, crates/kesharon-daemon/src/repository.rs. The file system is a
-- parameter: what its calls answer.
pub mod Inspected
pub mod Tests
use kesharon.Prelude.{
  String, Bool, not, ◌&&◌, Option, none, some, if◌then◌else◌, is_blank, Result, ok, err, ◌>>=◌,
  ◌>>◌,
}
use kesharon.Application.Error.{ApplicationError, repository}
use kesharon.Application.Ports.{RepositoryInspection, RepositoryService}

-- A path `P`, and the calls of `std::fs` and `std::path` on it. `file_name` is the last component, if
-- there is one that is text.
pub record FileSystem (P : Type 0) : Type 0 where
  pub canonicalize : String → Option P
  pub join : P → String → P
  pub is_file : P → Bool
  pub is_dir : P → Bool
  pub file_name : P → Option String
  pub to_str : P → Option String

abbrev pub path_unavailable : ApplicationError
path_unavailable = repository "projectPathUnavailable"

unfoldable pub ok_or {ℓ} : {A : Type ℓ} → Option A → ApplicationError → Result A ApplicationError
ok_or none e = err e
ok_or (some a) e = ok a

-- `.filter(|name| !name.trim().is_empty())`
unfoldable pub named : Option String → Option String
named none = none
named (some name) = if is_blank name then none else some name

module _ {P : Type 0} (fs : FileSystem P) where
  unfoldable pub check_marker : P → Result (Unit {0}) ApplicationError
  check_marker root =
      if not (fs.is_file (fs.join root ".git")) && not (fs.is_dir (fs.join root ".git"))
      then err (repository "notGitRepository")
      else ok tt

  unfoldable pub path_text : P → Result String ApplicationError
  unfolding ok_or
  path_text path = ok_or (fs.to_str path) path_unavailable

  -- `FilesystemRepository::inspect`
  unfoldable pub inspect : String → Result RepositoryInspection ApplicationError
  unfolding ok_or named check_marker path_text
  inspect requested_path = do
    root ← ok_or (fs.canonicalize requested_path) path_unavailable
    _ ← check_marker root
    display_name ← ok_or (named (fs.file_name root)) path_unavailable
    canonical_root ← path_text root
    ok (record { canonical_root = canonical_root; display_name = display_name })

  abbrev pub filesystem_repository : RepositoryService
  filesystem_repository = record { inspect = inspect }
