-- ===== src/Rewrite/Paths.antt =====
-- The edit of `WithPhysicalPaths`.
use gopls_mcp_manager.Prelude.{
  String, Bool, true, false, not, ◌&&◌, Option, none, some, List, ◌==◌, string_eq, is_some, ◌≡◌,
  ◌≢◌, refl, ◌∙◌, ==-ne, if_cases,
}
use gopls_mcp_manager.Rewrite.Values.{
  Json, scalar, strings, object, Members, find, rewrite_nested, put_text, put_files, set_paths,
  with_physical_paths,
}
use gopls_mcp_manager.Rewrite.Laws.{
  field, Rewritten, kept, changed, rewrite_nested-Rewritten, Rewritten-outer, Rewritten-inner,
  field-put_other, field-put_self, same_members,
}

put_text-other :
    (key text name : String) (members : Members)
    → key ≢ name
    → find name (put_text key text members) ≡ find name members
unfolding put_text
put_text-other key text name members other =
    if_cases (λ (x : Members). find name x ≡ find name members) (text == "") _ _ (λ empty. refl)
      (λ full. field-put_other key name (scalar text) members other)

put_text_self :
    (key text : String) (members : Members)
    → text ≢ ""
    → find key (put_text key text members) ≡ scalar text
unfolding put_text
put_text_self key text members full =
    rw (==-ne text "" full) (field-put_self key (scalar text) members)

put_files-other :
    (files : Option (List String)) (name : String) (members : Members)
    → "files" ≢ name
    → find name (put_files files members) ≡ find name members
unfolding put_files
put_files-other none name members other = refl
put_files-other (some files) name members other =
    field-put_other "files" name (strings files) members other

module _ (file dir : String) (files : Option (List String)) (old new : Members)
    (e : set_paths file dir files old ≡ some new) where
  set : put_files files (put_text "dir" dir (put_text "file" file old)) ≡ new
  unfolding set_paths
  set = same_members _ _ e

  set_paths-other :
      (name : String)
      → "file" ≢ name
      → "dir" ≢ name
      → "files" ≢ name
      → find name new ≡ find name old
  set_paths-other name f d l = rw⁻¹ set (
      put_files-other files name _ l
      ∙ (put_text-other "dir" dir name _ d ∙ put_text-other "file" file name old f))

  set_paths-file : file ≢ "" → find "file" new ≡ scalar file
  set_paths-file full = rw⁻¹ set (
      put_files-other files "file" _ (λ h. cc)
      ∙ (put_text-other "dir" dir "file" _ (λ h. cc) ∙ put_text_self "file" file old full))

  set_paths-dir : dir ≢ "" → find "dir" new ≡ scalar dir
  set_paths-dir full =
      rw⁻¹ set (put_files-other files "dir" _ (λ h. cc) ∙ put_text_self "dir" dir _ full)

  set_paths-files : (list : List String) → files ≡ some list → find "files" new ≡ strings list
  unfolding put_files
  set_paths-files list h =
      rw⁻¹ set (
        rw h
          (field-put_self "files" (strings list) (put_text "dir" dir (put_text "file" file old))))

-- What `WithPhysicalPaths` comes to: all else stays, and where it reports a change, the paths that it was given are there.
pub record IsRespelled (params : Json) (file dir : String) (files : Option (List String))
    (x : Json × Bool) : Type 0 where
  pub fields_stay : (name : String) → "arguments" ≢ name → field name x.0 ≡ field name params
  pub arguments_stay :
      (name : String)
      → "file" ≢ name
      → "dir" ≢ name
      → "files" ≢ name
      → field name (field "arguments" x.0) ≡ field name (field "arguments" params)
  pub unchanged : x.1 ≡ false → x.0 ≡ params
  pub file_set : x.1 ≡ true → file ≢ "" → field "file" (field "arguments" x.0) ≡ scalar file
  pub dir_set : x.1 ≡ true → dir ≢ "" → field "dir" (field "arguments" x.0) ≡ scalar dir
  pub files_set :
      x.1 ≡ true
      → (list : List String) → files ≡ some list
      → field "files" (field "arguments" x.0) ≡ strings list

module _ (params : Json) (file dir : String) (files : Option (List String)) where
  Rewritten-IsRespelled :
      (x : Json × Bool)
      → Rewritten params "arguments" (set_paths file dir files) x
      → IsRespelled params file dir files x
  Rewritten-IsRespelled x kept = record {
    fields_stay = λ name other. refl;
    arguments_stay = λ name f d l. refl;
    unchanged = λ h. refl;
    file_set = λ h. cc;
    dir_set = λ h. cc;
    files_set = λ h. cc;
  }
  Rewritten-IsRespelled x (changed outer nested new p n e) =
      let step = changed outer nested new p n e in
      let at_arguments = field-put_self "arguments" (object new) outer in
      record {
        fields_stay = λ name other.
            Rewritten-outer params "arguments" name (set_paths file dir files) _ other step;
        arguments_stay = λ name f d l.
            Rewritten-inner params "arguments" name (set_paths file dir files) _
              (λ old later h. set_paths-other file dir files old later h name f d l) step;
        unchanged = λ h. cc;
        file_set = λ h full. rw at_arguments (set_paths-file file dir files nested new e full);
        dir_set = λ h full. rw at_arguments (set_paths-dir file dir files nested new e full);
        files_set = λ h list given.
            rw at_arguments (set_paths-files file dir files nested new e list given);
      }

  pub with_physical_paths-IsRespelled :
      IsRespelled params file dir files (with_physical_paths params file dir files)
  unfolding with_physical_paths
  with_physical_paths-IsRespelled =
      if_cases (IsRespelled params file dir files)
        (file == "" && (dir == "" && not (is_some files))) _ _
        (λ nothing_given. Rewritten-IsRespelled (params, false) kept)
        (λ given.
          Rewritten-IsRespelled (rewrite_nested params "arguments" (set_paths file dir files))
            (rewrite_nested-Rewritten params "arguments" (set_paths file dir files)))
