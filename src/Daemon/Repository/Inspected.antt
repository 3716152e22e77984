-- ===== src/Daemon/Repository/Inspected.antt =====
-- A directory that passed its inspection makes a project.
use kesharon.Prelude.{
  ◌≡◌, refl, ap, sym, ◌∙◌, ◌⊎◌, inl, inr, ◌||◌, Bool-cases, Option-cases, String, true, false,
  Option, none, some, arith, is_blank, Result, ok, err, ◌>>=◌, bind-ok,
}
use kesharon.Domain.Project
use kesharon.Application.OpenProject.{OpenProjectCommand, build}
use kesharon.Application.Error.{ApplicationError, repository}
use kesharon.Application.Ports.{RepositoryInspection, IdGenerator}
use kesharon.Domain.Project.{new_project_id}
use kesharon.Daemon.Repository.{
  FileSystem, named, ok_or, path_unavailable, check_marker, path_text, inspect,
}

ok_or-named :
    (o : Option String) {name : String}
    → ok_or (named o) path_unavailable ≡ ok name
    → (o ≡ some name) × (is_blank name ≡ false)
unfolding ok_or named
ok_or-named none h = ground (arith, h)
ok_or-named (some n) h = ground (arith, h)

ok_or-ok : {A : Type 0} (o : Option A) {a : A} → ok_or o path_unavailable ≡ ok a → o ≡ some a
unfolding ok_or
ok_or-ok none h = cc
ok_or-ok (some a) h = ground (arith, h)

module _ {P : Type 0} (fs : FileSystem P) where
  -- The places of a successful inspection.
  pub inspect-ok :
      (path : String) (i : RepositoryInspection)
      → inspect fs path ≡ ok i
      → (root : P) × (fs.canonicalize path ≡ some root)
        × (check_marker fs root ≡ ok tt)
        × (fs.file_name root ≡ some i.display_name)
        × (fs.to_str root ≡ some i.canonical_root)
        × (is_blank i.display_name ≡ false)
  unfolding inspect path_text
  inspect-ok path i h =
      let (root, a, h1) = bind-ok (ok_or (fs.canonicalize path) path_unavailable) _ h in
      let (_, b, h2) = bind-ok (check_marker fs root) _ h1 in
      let (name, c, h3) = bind-ok (ok_or (named (fs.file_name root)) path_unavailable) _ h2 in
      let (text, d, h4) = bind-ok (ok_or (fs.to_str root) path_unavailable) _ h3 in
      let (e, present) = ok_or-named (fs.file_name root) c in
      let here : i.display_name ≡ name = ground (arith, h4) in
      let there : i.canonical_root ≡ text = ground (arith, h4) in
      (
        root,
        ok_or-ok (fs.canonicalize path) a,
        b,
        e ∙ ap some (sym here),
        ok_or-ok (fs.to_str root) d ∙ ap some (sym there),
        rw here present,
      )

  -- The project of an inspection is made whenever the generated identifier and the canonical path are
  -- not blank; it has the canonical path and the name that the file system gives for a directory that passes
  -- `check_marker`, and the command's trust.
  pub inspect-build :
      (ids : IdGenerator) (command : OpenProjectCommand) (i : RepositoryInspection)
      → inspect fs command.requested_path ≡ ok i
      → is_blank ids.next_id ≡ false
      → is_blank i.canonical_root ≡ false
      → (root : P) × (fs.canonicalize command.requested_path ≡ some root)
        × (check_marker fs root ≡ ok tt)
        × (fs.file_name root ≡ some i.display_name)
        × (fs.to_str root ≡ some i.canonical_root)
        × (build ids command i
            ≡ ok (record {
              id = record { as_str = ids.next_id };
              display_name = i.display_name;
              canonical_root = i.canonical_root;
              trusted = command.trusted;
            }))
  unfolding build new_project_id Project.new
  inspect-build ids command i h id_present root_present =
      let (root, a, b, c, d, name_present) = inspect-ok command.requested_path i h in
      (root, a, b, c, d, ground (arith, id_present, name_present, root_present))

  -- `.git` stands under a directory as a file or as a directory.
  abbrev pub IsMarked : P → Type 0
  IsMarked root = (fs.is_file (fs.join root ".git") || fs.is_dir (fs.join root ".git")) ≡ true

  -- The directory has no name that is text and not blank, or its path is not text.
  abbrev pub IsUnnamed : P → Type 0
  IsUnnamed root =
      (fs.file_name root ≡ none)
      ⊎ ((name : String) × (fs.file_name root ≡ some name) × (is_blank name ≡ true))
      ⊎ (fs.to_str root ≡ none)

  -- What an inspection of a path comes to.
  abbrev pub IsInspected : (path : String) → Result RepositoryInspection ApplicationError → Type 0
  IsInspected path (ok i) =
      (root : P) × (fs.canonicalize path ≡ some root)
      × IsMarked root
      × (fs.file_name root ≡ some i.display_name)
      × (is_blank i.display_name ≡ false)
      × (fs.to_str root ≡ some i.canonical_root)
  IsInspected path (err e) =
      ((fs.canonicalize path ≡ none) × (e ≡ repository "projectPathUnavailable"))
      ⊎ ((root : P) × (fs.canonicalize path ≡ some root)
          × (((fs.is_file (fs.join root ".git") ≡ false)
                × (fs.is_dir (fs.join root ".git") ≡ false)
                × (e ≡ repository "notGitRepository"))
              ⊎ (IsMarked root × IsUnnamed root × (e ≡ repository "projectPathUnavailable"))))

  marked : (root : P) → IsMarked root → check_marker fs root ≡ ok tt
  unfolding check_marker
  marked root h = ground (arith, h)

  unmarked :
      (root : P)
      → fs.is_file (fs.join root ".git") || fs.is_dir (fs.join root ".git") ≡ false
      → (check_marker fs root ≡ err (repository "notGitRepository"))
        × (fs.is_file (fs.join root ".git") ≡ false)
        × (fs.is_dir (fs.join root ".git") ≡ false)
  unfolding check_marker
  unmarked root h = (ground (arith, h), ground (arith, h), ground (arith, h))

  -- The rest of an inspection, from the name of the directory on.
  abbrev rest : P → Result RepositoryInspection ApplicationError
  rest root = ok_or (named (fs.file_name root)) path_unavailable >>= λ display_name.
      path_text fs root >>= λ canonical_root.
      ok (record { canonical_root = canonical_root; display_name = display_name })

  with_marker :
      (path : String) (root : P)
      → fs.canonicalize path ≡ some root
      → IsMarked root
      → IsInspected path (rest root)
  unfolding path_text named ok_or
  with_marker path root a b = elim (Option-cases (fs.file_name root)) [
    | inl c ↦ rw (c, named) (inr (root, a, inr (b, inl c, refl)))
    | inr (name, c) ↦ elim (Bool-cases (is_blank name)) [
      | inl d ↦ rw (c, named) (rw (d, named) (inr (root, a, inr (b, inr (inl (name, c, d)), refl))))
      | inr d ↦ elim (Option-cases (fs.to_str root)) [
        | inl e ↦ rw (c, named) (rw (d, named) (rw e (inr (root, a, inr (b, inr (inr e), refl)))))
        | inr (text, e) ↦ rw (c, named) (rw (d, named) (rw e (root, a, b, c, d, e)))
      ]
    ]
  ]

  -- The inspection of a path succeeds exactly with the canonical path that is text of a directory with
  -- a `.git` file or directory, and the name of this directory, which is text and not blank. It fails
  -- with `notGitRepository` if the directory is there and has no `.git`, and with
  -- `projectPathUnavailable` if it is not there, or has one but no such name or no such path.
  pub inspect-IsInspected : (path : String) → IsInspected path (inspect fs path)
  unfolding inspect path_text named ok_or
  inspect-IsInspected path = elim (Option-cases (fs.canonicalize path)) [
    | inl a ↦ rw (a, inspect) (inl (a, refl))
    | inr (root, a) ↦
        elim (Bool-cases (fs.is_file (fs.join root ".git") || fs.is_dir (fs.join root ".git"))) [
          | inr b ↦
              let (m, file, dir) = unmarked root b in
              rw (a, inspect) (rw (m, inspect) (inr (root, a, inl (file, dir, refl))))
          | inl b ↦ rw (a, inspect) (rw (marked root b, inspect) (with_marker path root a b))
        ]
  ]
