-- ===== src/Gc/Expired.antt =====
-- Which files of the archive agentd/src/agentd/gc.py deletes.
use code_workflow.Prelude.{
  ◌*◌, String, ◌≡◌, refl, sym, ap, ◌∙◌, Option, none, some, List, [], ◌∷◌, ◌++◌, map, Bool, false,
  ◌&&◌, arith, if◌then◌else◌, Bool-cases, inl, inr,
}
use mathlib.Core.List.{append-nil, append_assoc}
use code_workflow.Prelude.Tables.{select}
use code_workflow.Gc.{
  tmp_max_age_s, File, ArchiveEntry, file, folder, neither, Surroundings, GcReport, new_gc_report,
  is_older, is_tmp, is_tar, consider_archive_file, consider_files, archived_in, sweep_entry,
  sweep_entries, sweep_archive,
}

-- The archives and unfinished archives: those beside the sessions' folders, and in them.
abbrev files_of : ArchiveEntry → List File
files_of (file f) = f ∷ []
files_of (folder path fs) = select is_tar fs ++ select is_tmp fs
files_of neither = []

abbrev all_files : List ArchiveEntry → List File
all_files [] = []
all_files (e ∷ es) = files_of e ++ all_files es

abbrev pub archive_files : Option (List ArchiveEntry) → List File
archive_files none = []
archive_files (some es) = all_files es

module _ (x : Surroundings) where
  -- An unfinished archive of an hour or more, or an archive as old as the configured days.
  abbrev pub is_expired : File → Bool
  is_expired f =
      if is_tmp f
      then is_older x.now 3600 f.mtime
      else is_tar f && is_older x.now (x.archive_days * 86400) f.mtime

  -- The paths of the expired files.
  abbrev pub expired : List File → List String
  expired fs = map (λ f. f.path) (select is_expired fs)

  expired-append : (fs gs : List File) → expired (fs ++ gs) ≡ expired fs ++ expired gs
  expired-append [] gs = refl
  expired-append (f ∷ fs) gs = elim (Bool-cases (is_expired f)) [
    | inl e ↦ rw e (ap (λ ps. f.path ∷ ps) (expired-append fs gs))
    | inr e ↦ rw e (expired-append fs gs)
  ]

  one_file :
      (f : File) (r : GcReport)
      → (consider_archive_file x false f r).unlinked ≡ r.unlinked ++ expired (f ∷ [])
  unfolding consider_archive_file
  one_file f r = elim (Bool-cases (is_tmp f)) [
    | inl t ↦ elim (Bool-cases (is_older x.now tmp_max_age_s f.mtime)) [
      | inl e ↦ rw (t, e) refl
      | inr e ↦ rw (t, e) (sym (append-nil r.unlinked))
    ]
    | inr t ↦ elim (Bool-cases (is_tar f && is_older x.now (x.archive_days * 86400) f.mtime)) [
      | inl e ↦ rw (t, e) refl
      | inr e ↦ rw (t, e) (sym (append-nil r.unlinked))
    ]
  ]

  many_files :
      (fs : List File) (r : GcReport)
      → (consider_files x false fs r).unlinked ≡ r.unlinked ++ expired fs
  unfolding consider_files
  many_files [] r = sym (append-nil r.unlinked)
  many_files (f ∷ fs) r =
      many_files fs (consider_archive_file x false f r)
      ∙ ap (λ ps. ps ++ expired fs) (one_file f r)
      ∙ append_assoc r.unlinked (expired (f ∷ [])) (expired fs)
      ∙ ap (λ ps. r.unlinked ++ ps) (sym (expired-append (f ∷ []) fs))

  one_entry :
      (e : ArchiveEntry) (r : GcReport)
      → (sweep_entry x false e r).unlinked ≡ r.unlinked ++ expired (files_of e)
  unfolding sweep_entry
  one_entry (file f) r = one_file f r
  one_entry (folder path fs) r = ground (arith, many_files (archived_in fs) r)
  one_entry neither r = sym (append-nil r.unlinked)

  many_entries :
      (es : List ArchiveEntry) (r : GcReport)
      → (sweep_entries x false es r).unlinked ≡ r.unlinked ++ expired (all_files es)
  unfolding sweep_entries
  many_entries [] r = sym (append-nil r.unlinked)
  many_entries (e ∷ es) r =
      many_entries es (sweep_entry x false e r)
      ∙ ap (λ ps. ps ++ expired (all_files es)) (one_entry e r)
      ∙ append_assoc r.unlinked (expired (files_of e)) (expired (all_files es))
      ∙ ap (λ ps. r.unlinked ++ ps) (sym (expired-append (files_of e) (all_files es)))

  -- A pass that is no dry run deletes exactly the expired files of the archive: an unfinished archive
  -- of an hour or more, and an archive that is as old as the configured number of days. It keeps
  -- every other file.
  pub sweep_archive_lem :
      (sweep_archive x false new_gc_report).unlinked ≡ expired (archive_files x.archive)
  unfolding sweep_archive
  sweep_archive_lem = swept x.archive
    where
      swept :
          (a : Option (List ArchiveEntry))
          → GcReport.unlinked
              (elim a [ none ↦ new_gc_report | some es ↦ sweep_entries x false es new_gc_report ])
            ≡ expired (archive_files a)
      swept none = refl
      swept (some es) = many_entries es new_gc_report
