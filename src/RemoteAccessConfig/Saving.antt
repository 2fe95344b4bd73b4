-- ===== src/RemoteAccessConfig/Saving.antt =====
-- What is on the disk after a save, whatever fails on the way.
use codex_app.RemoteAccessConfig.{
  RemoteAccessPreferences, RemoteAccessConfigError, HostAndPort, Answers, Disk, IoErrorKind, put,
  write_temp_file, replace_file, temp_path, save_text, passed_on, save, or_remove, rename_file,
  write_all, call, remove_answer,
}
use codex_app.Prelude.{
  String, false, Option, none, some, ◌==◌, ◌≡◌, refl, ◌∙◌, ◌⊎◌, inl, inr, Result, ok, err, ◌>>◌,
  continue, eq_iff, is_some, Bool-cases, Option-cases, file_name,
}

-- A step that either succeeds with some contents of a file, or fails and keeps what it holds.
abbrev pub ReplacedOrKept : {E : Type 0} → String → String → Disk → Result E Unit × Disk → Type 0
ReplacedOrKept {E = E} path contents before (r, after) =
    ((r ≡ ok tt) × (after path ≡ some contents))
    ⊎ ((e : E) × (r ≡ err e) × (after path ≡ before path))

ok≢err : (u : Unit) (e : IoErrorKind) → ¬ (◌≡◌ {A = Result IoErrorKind Unit} (ok u) (err e))
ok≢err u e h = cc

module _ (answers : Answers) (path temp : String) (apart : (path == temp) ≡ false) where
  put-other : (contents : Option String) (disk : Disk) → put temp contents disk path ≡ disk path
  put-other contents disk = rw apart refl

  call-other :
      (a : Option IoErrorKind) (contents : Option String) (disk : Disk)
      → (call a (put temp contents) disk).1 path ≡ disk path
  call-other none contents disk = put-other contents disk
  call-other (some e) contents disk = refl

  or_remove-other :
      (r : Result IoErrorKind Unit) (disk : Disk)
      → (or_remove answers temp (r, disk)).1 path ≡ disk path
  or_remove-other (ok u) disk = refl
  or_remove-other (err e) disk = call-other (remove_answer answers temp disk) none disk

  -- The temporary file, once it exists: it holds the contents, or the step has failed; the other
  -- file is as it was.
  abbrev Wrote : String → Disk → Result IoErrorKind Unit × Disk → Type 0
  Wrote contents before (r, after) =
      (((r ≡ ok tt) × (after temp ≡ some contents)) ⊎ ((e : IoErrorKind) × (r ≡ err e)))
      × (after path ≡ before path)

  synced :
      (a : Option IoErrorKind) (contents : String) (before disk : Disk)
      → disk temp ≡ some contents
      → disk path ≡ before path
      → Wrote contents before (or_remove answers temp (call a (λ d. d) disk))
  synced none contents before disk h k = (inl (refl, h), k)
  synced (some e) contents before disk h k = (inr (e, refl), or_remove-other (err e) disk ∙ k)

  put_self : (contents : String) (disk : Disk) → put temp (some contents) disk temp ≡ some contents
  put_self contents disk = rw ((eq_iff temp temp).1 refl) refl

  wrote :
      (write flush sync : Option IoErrorKind) (written contents : String) (before disk : Disk)
      → disk path ≡ before path
      → Wrote contents before (
          or_remove answers temp (
            (write_all write written temp contents >> call flush (λ d. d) >> call sync (λ d. d))
              disk))
  wrote (some e) flush sync written contents before disk k = (
    inr (e, refl),
    or_remove-other (err e) (put temp (some written) disk) ∙ put-other (some written) disk ∙ k,
  )
  wrote none (some e) sync written contents before disk k = (
    inr (e, refl),
    or_remove-other (err e) (put temp (some contents) disk) ∙ put-other (some contents) disk ∙ k,
  )
  wrote none none sync written contents before disk k =
      synced sync contents before (put temp (some contents) disk) (put_self contents disk)
        (put-other (some contents) disk ∙ k)

  created :
      (create : Option IoErrorKind) (contents : String) (disk : Disk)
      → Wrote contents disk (
          (call create (put temp (some "")) >> λ d. or_remove answers temp (
              (write_all answers.write answers.written temp contents
                  >> call answers.flush (λ d'. d')
                  >> call answers.sync (λ d'. d'))
                d))
            disk)
  created none contents disk =
      wrote answers.write answers.flush answers.sync answers.written contents disk
        (put temp (some "") disk) (put-other (some "") disk)
  created (some e) contents disk = (inr (e, refl), refl)

  write_temp_file-Wrote :
      (contents : String) (disk : Disk)
      → Wrote contents disk (write_temp_file answers temp contents disk)
  unfolding write_temp_file
  write_temp_file-Wrote contents disk = elim (Bool-cases (is_some (disk temp))) [
    | inl e ↦ rw e (inr (IoErrorKind.already_exists, refl), refl)
    | inr e ↦ rw e (created answers.create contents disk)
  ]

  renamed :
      (rename : Option IoErrorKind) (contents : String) (before disk : Disk)
      → disk temp ≡ some contents
      → disk path ≡ before path
      → ReplacedOrKept path contents before
          (or_remove answers temp (call rename (λ d. put temp none (put path (d temp) d)) disk))
  renamed none contents before disk h k =
      inl (refl, put-other none (put path (disk temp) disk) ∙ rw ((eq_iff path path).1 refl) h)
  renamed (some e) contents before disk h k = inr (e, refl, or_remove-other (err e) disk ∙ k)

  after_write :
      (contents : String) (before : Disk) (out : Result IoErrorKind Unit × Disk)
      → Wrote contents before out
      → ReplacedOrKept path contents before
          (continue out (λ u disk. or_remove answers temp (rename_file answers temp path disk)))
  after_write contents before (ok u, disk) (inl (e, h), k) =
      renamed answers.rename contents before disk h k
  after_write contents before (ok u, disk) (inr (e, h), k) = absurd (ok≢err u e h)
  after_write contents before (err e, disk) (h, k) = inr (e, refl, k)

  replace_file_lem :
      (contents : String) (disk : Disk)
      → ReplacedOrKept path contents disk (replace_file answers path temp contents disk)
  unfolding replace_file
  replace_file_lem contents disk =
      after_write contents disk (write_temp_file answers temp contents disk)
        (write_temp_file-Wrote contents disk)

module _ {JsonError : Type 0} (parse_url : String → Option HostAndPort)
    (to_text : RemoteAccessPreferences → Result JsonError String)
    (from_text : String → Result JsonError RemoteAccessPreferences)
    (to_string_lossy : String → String) where
  passed_on_lem :
      (path contents : String) (before : Disk) (out : Result IoErrorKind Unit × Disk)
      → ReplacedOrKept path contents before out
      → ReplacedOrKept path contents before
          (passed_on parse_url to_text from_text to_string_lossy out)
  passed_on_lem path contents before (r, disk) (inl (e, h)) = rw e (inl (refl, h))
  passed_on_lem path contents before (r, disk) (inr (x, e, h)) =
      rw e (inr (RemoteAccessConfigError.io x, refl, h))

  save_text_lem :
      (answers : Answers) (path uuid contents : String) (disk : Disk)
      → ((name : String)
          → file_name path ≡ some name
          → (path == temp_path to_string_lossy path name uuid) ≡ false)
      → ReplacedOrKept path contents disk
          (save_text parse_url to_text from_text to_string_lossy answers path uuid contents disk)
  unfolding save_text
  save_text_lem answers path uuid contents disk apart = elim (Option-cases (file_name path)) [
    | inl e ↦
        rw (save_text, e) (inr (RemoteAccessConfigError.io IoErrorKind.invalid_input, refl, refl))
    | inr (name, e) ↦
        rw (save_text, e)
          (passed_on_lem path contents disk
            (replace_file answers path (temp_path to_string_lossy path name uuid) contents disk)
            (replace_file_lem answers path (temp_path to_string_lossy path name uuid) (apart name e)
              contents disk))
  ]

  -- Whatever fails on the way, where the temporary file has not the name of the file itself and the
  -- preferences have a JSON text: a save that succeeds leaves this text in the file, and one that
  -- fails leaves the file as it was.
  pub save_replaces_or_keeps :
      (answers : Answers) (path uuid : String) (preferences : RemoteAccessPreferences)
      (contents : String) (disk : Disk)
      → ((name : String)
          → file_name path ≡ some name
          → (path == temp_path to_string_lossy path name uuid) ≡ false)
      → to_text preferences ≡ ok contents
      → ReplacedOrKept path contents disk
          (save parse_url to_text from_text to_string_lossy answers path uuid preferences disk)
  unfolding save
  save_replaces_or_keeps answers path uuid preferences contents disk apart e =
      rw (save, e) (save_text_lem answers path uuid contents disk apart)
