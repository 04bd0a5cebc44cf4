-- ===== src/Tests/Demo.antt =====
-- The theorems on the demonstration programs, at a database that is a list.
use balabox.Base.{◌≡◌, refl, true, none, some, [], ◌∷◌}
use balabox.Base.Text.{Text}
use balabox.Exec.{ok}
use balabox.Demo.{write_main, read_main}
use balabox.Demo.Laws.{read_main-write_main}
use balabox.Tests.Database.{list_db, list_db-IsLevelDb}

abbrev small_gif : Text
small_gif = 71 ∷ 0 ∷ 255 ∷ []

read_main-write_main_example :
    (s' : list_db.State) × (printed : Text) × (write_main list_db true (some small_gif) []
      ≡ (ok tt, s'))
    × (read_main list_db true true none s' ≡ (ok (printed, some small_gif), s'))
read_main-write_main_example =
    read_main-write_main list_db list_db-IsLevelDb (λ k v s. refl) small_gif none []
