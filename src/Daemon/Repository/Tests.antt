-- ===== src/Daemon/Repository/Tests.antt =====
-- The inspection in a file system with one repository.
use kesharon.Prelude.{◌≡◌, refl, String, false, some, is_blank, str_eq, ok}
use kesharon.Application.Ports.{RepositoryInspection}
use kesharon.Daemon.Repository.{FileSystem, named, ok_or, check_marker, path_text, inspect}
use kesharon.Daemon.Repository.Inspected.{IsInspected, inspect-IsInspected}

abbrev fs : FileSystem String
fs = record {
  canonicalize = λ path. some "/home/work";
  join = λ path name. "/home/work/.git";
  is_file = λ path. false;
  is_dir = λ path. str_eq path "/home/work/.git";
  file_name = λ path. some "work";
  to_str = some;
}

abbrev inspection : RepositoryInspection
inspection = record { canonical_root = "/home/work"; display_name = "work" }

passes : inspect fs "work" ≡ ok inspection
unfolding inspect check_marker ok_or named path_text is_blank
passes = refl

inspect-IsInspected_example : IsInspected fs "work" (inspect fs "work")
inspect-IsInspected_example = inspect-IsInspected fs "work"
