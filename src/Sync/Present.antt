-- ===== src/Sync/Present.antt =====
-- The files that are there, over the second loop of client/sync.py.
use balabox.Base.{
  ◌≡◌, refl, subst, ◌∙◌, false, inl, inr, Option, none, some, List, [], ◌∷◌, if◌then◌else◌,
  Bool-cases,
}
use balabox.Base.Text.{Text, text, text_eq, text_eq_iff}
use balabox.Base.Dict.{lookup, lookup-insert}
use balabox.Exec.{Exec, pure, demand, ◌>>=◌}
use balabox.Exec.Keeps.{Keeps, Keeps-pure, Keeps-demand, Keeps-bind, Keeps-if, Keeps-option}
use balabox.Exec.Maintains.{Maintains, Maintains-bind}
use balabox.Sync.{
  Outside, Client, File, get_block_list, post_file_delete, add_to_version_file, drop_version,
  saved_of, look, is_file, write_local,
}
use balabox.Sync.Transfer.{down_file}
use balabox.Sync.Run.{fail_meta, sync_listed, sync_listing}
use balabox.Sync.Keeps.{get_ok-Keeps, down_file-Keeps}

module _ (O : Outside) (g : Text) (file : File) where
  abbrev there : Client O → Option File
  there c = lookup g c.files

  -- What a round does for a name that is not the one of a file.
  abbrev absent_round : Text → Exec (Client O) (Unit {0})
  absent_round f = do
    entry ← saved_of O f
    elim entry [
      | none ↦ do
        listed ← get_block_list O f
        elim listed [
          | none ↦ pure tt
          | some l ↦ do
            done ← down_file O f l.block_list
            if done then add_to_version_file O f l.version else fail_meta O f
        ]
      | some _ ↦ do
        deleted ← post_file_delete O f
        is_delete ← demand deleted
        if is_delete then drop_version O f else fail_meta O f
    ]

  absent_round-Keeps : (f : Text) → text_eq g f ≡ false → Keeps there (absent_round f)
  unfolding get_block_list post_file_delete add_to_version_file fail_meta drop_version saved_of
      write_local pure
  absent_round-Keeps f other =
      Keeps-bind there _ _ (λ d. refl)
        λ entry.
          Keeps-option there entry _ _
            (Keeps-bind there _ _ (get_ok-Keeps O there (λ d s. refl) (O.block_list f)) λ listed.
              Keeps-option there listed _ _ (Keeps-pure there tt) λ l _.
                Keeps-bind there _ _
                  (down_file-Keeps O there (λ d s. refl) f (λ b d. rw (lookup-insert, other))
                    l.block_list)
                  λ done. Keeps-if there done _ _ (λ d. refl) (λ d. refl))
            λ saved _.
              Keeps-bind there _ _ (get_ok-Keeps O there (λ d s. refl) (O.file_delete f)) λ deleted.
                Keeps-bind there _ _ (Keeps-demand there deleted)
                  λ gone. Keeps-if there gone _ _ (λ d. refl) (λ d. refl)

  sync_listed-there : (f : Text) → Maintains there (λ o. o ≡ some file) (sync_listed O f)
  unfolding sync_listed is_file look pure ◌>>=◌
  sync_listed-there f c h = elim (Bool-cases (text_eq g f)) [
    | inr other ↦ Keeps-if there _ _ _ (Keeps-pure there tt) (absent_round-Keeps f other) c ∙ h
    | inl same ↦
        let found : lookup f c.files ≡ some file =
          subst (λ k. lookup k c.files ≡ some file) ((text_eq_iff g f).0 same) h in
        elim (Bool-cases (text_eq f (text "versions.json"))) [
          | inl own ↦ rw own h
          | inr user ↦ rw (user, found) h
        ]
  ]

  sync_listing-there : (fs : List Text) → Maintains there (λ o. o ≡ some file) (sync_listing O fs)
  unfolding sync_listing pure
  sync_listing-there [] = λ c h. h
  sync_listing-there (f ∷ fs) =
      Maintains-bind there (λ o. o ≡ some file) _ _ (sync_listed-there f) λ _. sync_listing-there fs

pub sync_listing-files :
    (O : Outside) (fs : List Text) (g : Text) (file : File) (c : Client O)
    → lookup g c.files ≡ some file
    → lookup g (sync_listing O fs c).1.files ≡ some file
sync_listing-files O fs g file c here = sync_listing-there O g file fs c here
