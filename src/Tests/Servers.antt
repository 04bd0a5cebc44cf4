-- ===== src/Tests/Servers.antt =====
-- Servers that are dicts, for the client. A block is one byte, and its own hash.
use mathlib.Core.Option
use balabox.Base.{
  ℕ, Bool, true, false, not, Option, none, some, List, [], ◌∷◌, keep_if, any, if◌then◌else◌,
}
use balabox.Base.Text.{Text, text, text_eq}
use balabox.Base.Dict.{Dict, lookup, insert}
use balabox.Exec.{Exec, pure}
use balabox.Helper.Version.{accepts}
use balabox.Sync.{Response, Listed, Queried, Outside}
use balabox.Tests.Cache.{bytes}

abbrev pub answer : {A : Type 0} → A → Response A
answer a = record { status_code = 200; content = some a }

-- block_list answers a null list for a file without blocks.
abbrev pub listed : Option (List Text × ℕ) → Listed
listed none = record { block_list = none; version = 0 }
listed (some (hs, v)) = record { block_list = some hs; version = v }

abbrev pub queried : List Text → Queried
queried [] = record { nb = false; needed_blocks = none }
queried (h ∷ hs) = record { nb = true; needed_blocks = some (h ∷ hs) }

pub record Held : Type 0 where
  pub clock : ℕ
  pub listings : Dict (List Text × ℕ)
  pub blocks : Dict Text

unfoldable pub is_known : Text → Dict (List Text × ℕ) → Bool
is_known h [] = false
is_known h ((f, (hs, v)) ∷ d) =
    let later = is_known h d in if any (text_eq h) hs then true else later

unfoldable pub commit : Text → List Text → ℕ → Exec Held (Response Bool)
commit f hs v s =
    if accepts (Option.map (λ p. p.1) (lookup f s.listings)) v
    then pure (answer true) (record s { listings = insert f (hs, v) s.listings })
    else pure (answer false) s

unfoldable pub fetch : Text → Exec Held (Response Text)
fetch h s = elim (lookup h s.blocks) [
  | none ↦ pure (record { status_code = 404; content = none }) s
  | some b ↦ pure (answer b) s
]

abbrev pub memory : Outside
memory = record {
  State = Held;
  now = λ s. s.clock;
  block_list = λ f s. pure (answer (listed (lookup f s.listings))) s;
  block_query = λ f hs s. pure (answer (queried (keep_if (λ h. not (is_known h s.listings)) hs))) s;
  file_commit = commit;
  file_list = λ s. pure (answer none) s;
  file_delete = λ f s. pure (answer true) s;
  block_store = λ h b s. pure (text "200 OK") (record s { blocks = insert h b s.blocks });
  block_fetch = fetch;
  split = λ n s. bytes s;
  sha256 = λ b. b;
}
