-- ===== src/Domain/Project.antt =====
-- crates/kesharon-domain/src/project.rs
use kesharon.Prelude.{String, Bool, if◌then◌else◌, is_blank, Result, ok, err}

pub data ProjectError : Type 0 where
  empty_identifier empty_display_name empty_canonical_root : ProjectError

unfoldable pub to_string : ProjectError → String
to_string empty_identifier = "project identifier must not be blank"
to_string empty_display_name = "project display name must not be blank"
to_string empty_canonical_root = "project canonical root must not be blank"

pub record ProjectId : Type 0 where
  pub as_str : String

unfoldable pub new_project_id : String → Result ProjectId ProjectError
new_project_id value =
    if is_blank value then err empty_identifier else ok (record { as_str = value })

pub record Project : Type 0 where
  pub id : ProjectId
  pub display_name : String
  pub canonical_root : String
  pub trusted : Bool

unfoldable pub new : ProjectId → String → String → Bool → Result Project ProjectError
new id display_name canonical_root trusted =
    if is_blank display_name
    then err empty_display_name
    else if is_blank canonical_root
    then err empty_canonical_root
    else ok (record {
      id = id;
      display_name = display_name;
      canonical_root = canonical_root;
      trusted = trusted;
    })
