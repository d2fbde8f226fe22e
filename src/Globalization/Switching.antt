-- ===== src/Globalization/Switching.antt =====
-- Switching the language, the directory or the file system (src/globalization/translator.cpp).
use cpp_essence.Prelude.{
  ◌≡◌, refl, sym, subst, ◌⊎◌, inl, inr, Option, none, some, Bytes, true, false, Bool-cases,
}
use cpp_essence.Globalization.{
  VirtualFsOperator, Translator, LoadError, Result, ok, err, load, update, set_language,
  set_working_directory, set_virtual_fs, parse_language_file, TextMap, replaced, constructed,
  opened, failed_to_open, file_does_not_exist,
}

-- The outcome of a switch to these settings: it fails and the translator is as it was, or the
-- translator has the settings and the entries of an existing file.
abbrev pub Switches :
    VirtualFsOperator → Bytes → Bytes → Translator → Translator × Option LoadError → Type 0
Switches fs directory language t r =
    ((e : LoadError) × (r ≡ (t, some e)))
    ⊎ ((stream : Bytes) × (fs.exists (fs.language_path directory language) ≡ true)
        × (fs.open_read (fs.language_path directory language) ≡ some stream)
        × (parse_language_file stream ≡ ok r.0.entries)
        × (r.0.fs ≡ fs)
        × (r.0.working_directory ≡ directory)
        × (r.0.language ≡ language)
        × (r.1 ≡ none))

module _ (fs : VirtualFsOperator) (directory language : Bytes) (t : Translator) where
  constructed-Switches :
      (stream : Bytes) (r : Result TextMap)
      → fs.exists (fs.language_path directory language) ≡ true
      → fs.open_read (fs.language_path directory language) ≡ some stream
      → parse_language_file stream ≡ r
      → Switches fs directory language t (replaced t (constructed fs directory language r))
  constructed-Switches stream (err e) h k p = inl (e, refl)
  constructed-Switches stream (ok entries) h k p = inr (stream, h, k, p, refl, refl, refl, refl)

  opened-Switches :
      (o : Option Bytes)
      → fs.exists (fs.language_path directory language) ≡ true
      → fs.open_read (fs.language_path directory language) ≡ o
      → Switches fs directory language t (replaced t (opened fs directory language o))
  opened-Switches none h k = inl (failed_to_open, refl)
  opened-Switches (some stream) h k =
      constructed-Switches stream (parse_language_file stream) h k refl

load-exists :
    (fs : VirtualFsOperator) (directory language : Bytes)
    → fs.exists (fs.language_path directory language) ≡ true
    → load fs directory language
      ≡ opened fs directory language (fs.open_read (fs.language_path directory language))
unfolding load
load-exists fs directory language e = rw e refl

load-missing :
    (fs : VirtualFsOperator) (directory language : Bytes)
    → fs.exists (fs.language_path directory language) ≡ false
    → load fs directory language ≡ err file_does_not_exist
unfolding load
load-missing fs directory language e = rw e refl

update-Switches :
    (fs : VirtualFsOperator) (directory language : Bytes) (t : Translator)
    → Switches fs directory language t (update fs directory language t)
unfolding update
update-Switches fs directory language t =
    elim (Bool-cases (fs.exists (fs.language_path directory language))) [
      | inl e ↦
          subst (λ r. Switches fs directory language t (replaced t r))
            (sym (load-exists fs directory language e))
            (opened-Switches fs directory language t _ e refl)
      | inr e ↦
          subst (λ r. Switches fs directory language t (replaced t r))
            (sym (load-missing fs directory language e)) (inl (file_does_not_exist, refl))
    ]

-- Each setter fails and leaves the translator as it was, or gives it the one new setting, the two
-- others as they were, and the entries of the file that these settings name.
pub setters-Switch :
    (t : Translator) (fs : VirtualFsOperator) (directory language : Bytes)
    → Switches fs t.working_directory t.language t (set_virtual_fs fs t)
      × Switches t.fs directory t.language t (set_working_directory directory t)
      × Switches t.fs t.working_directory language t (set_language language t)
unfolding set_virtual_fs set_working_directory set_language
setters-Switch t fs directory language = (
  update-Switches fs t.working_directory t.language t,
  update-Switches t.fs directory t.language t,
  update-Switches t.fs t.working_directory language t,
)
