-- ===== src/Tests/Blocks.antt =====
-- The theorems on the block server, at a directory that opens at the third attempt.
use balabox.Base.{◌≡◌, ◌≢◌, refl, ◌∙◌, true, inl, inr, some, [], ◌∷◌, ◌++◌, arith}
use balabox.Base.Text.{Text, text, text_eq, text_eq_iff}
use balabox.Exec.{ok, pure}
use balabox.Blocks.{BlockWorld, get_ip_address}
use balabox.Blocks.Store.{block_store}
use balabox.Blocks.Fetch.{fetch_head, block_fetch}
use balabox.Blocks.Laws.{
  store_request, fetch_request, store_page, get_block_hash-hash_query, Stores, Loads,
  block_store_lem, block_fetch-block_store,
}
use balabox.Blocks.Safety.{block_of-block_store}
use balabox.Tests.Data.{ann, hash_a, hash_b}
use balabox.Tests.Database.{value_of, Held, try_open, directory, directory-IsDirectory}

abbrev held : BlockWorld directory
held = record { db = record { rows = []; busy = 2 }; out = [] }

abbrev filled : Held
filled = record { rows = (hash_a, ann) ∷ []; busy = 0 }

abbrev eth0 : Text
eth0 = text "eth0 inet addr:169.232.84.11  Mask"

abbrev address : Text
address = text "169.232.84.11"

address_lem : (x : BlockWorld directory) → get_ip_address eth0 x ≡ (ok (some address), x)
unfolding get_ip_address text pure
address_lem x = refl

stores : Stores directory directory-IsDirectory 3 hash_a ann held.db
unfolding try_open
stores = (inr (refl, inr (refl, inl refl)), inl refl)

loads : Loads directory directory-IsDirectory 3 filled
unfolding try_open
loads = inl refl

block_store_lem_example :
    (block_store directory 3 eth0 (store_request hash_a ann []) held
      ≡ (ok tt, record { db = filled; out = store_page hash_a (some address) }))
    × (directory.db.get hash_a filled ≡ some ann)
unfolding try_open
block_store_lem_example =
    block_store_lem directory directory-IsDirectory 3 eth0 hash_a ann [] (some address) held
      (omega arith) address_lem stores

block_fetch-block_store_example :
    block_fetch directory 3
      (fetch_request hash_a [] [] [])
      (block_store directory 3 eth0 (store_request hash_a ann []) held).1
    ≡ (
      ok tt,
      record { db = filled; out = store_page hash_a (some address) ++ (fetch_head ann ++ ann) },
    )
unfolding try_open
block_fetch-block_store_example =
    block_fetch-block_store directory directory-IsDirectory 3 eth0 hash_a ann [] [] [] []
      (some address) held (omega arith) address_lem stores loads

abbrev served : BlockWorld directory
served = record { db = filled; out = [] }

hash_b-ne : hash_b ≢ hash_a
unfolding text_eq
hash_b-ne e = let same : text_eq hash_b hash_a ≡ true = (text_eq_iff hash_b hash_a).1 e in cc

block_of-block_store_example :
    directory.db.get hash_a (block_store directory 3 eth0 (store_request hash_b ann []) served).1.db
    ≡ some ann
unfolding value_of text_eq
block_of-block_store_example =
    block_of-block_store directory directory-IsDirectory 3 hash_a eth0 (store_request hash_b ann [])
      served
      (λ q h e e' wrong.
        let same : hash_b ≡ h = cc (get_block_hash-hash_query hash_b) in hash_b-ne (same ∙ wrong))
