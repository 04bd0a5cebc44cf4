-- ===== src/Blocks/Laws.antt =====
-- What the block server stores, it serves.
use balabox.Base.{
  ℕ, ◌^◌, ◌≤◌, ◌<◌, ◌≡◌, ◌≢◌, refl, ap, ◌∙◌, Bool, true, false, Option, none, some, [], ◌∷◌, ◌++◌,
  length, arith,
}
use balabox.Base.Text.{Text, text}
use balabox.Base.Decimal.{decimal}
use balabox.Base.Decimal.Lengths.{strtoul-decimal}
use balabox.Exec.{ok, ◌>>=◌}
use balabox.Web.{Request, gstdin, response_body, capped_size}
use balabox.Cache.Server.Laws.{IsLevelDb}
use balabox.Blocks.{Directory, BlockWorld, get_ip_address, get_block_hash, print, on_directory}
use balabox.Blocks.Retry.{Succeeds, settled, retry_lem, settled-keeps, settled-holds}
use balabox.Blocks.Store.{
  store_max, get_chars, store_size, get_request_body, store_error, success_page, store_block,
  block_store_of, block_store,
}
use balabox.Blocks.Fetch.{fetch_head, load_block, fetch_page, block_fetch}

get_chars-length : (s : Text) → get_chars (length s) s ≡ s
unfolding get_chars
get_chars-length [] = refl
get_chars-length (c ∷ s) = ap (λ t. c ∷ t) (get_chars-length s)

capped_size-all : (max n : ℕ) → n ≤ max → capped_size max (n, []) ≡ n
unfolding capped_size
capped_size-all max n fits = ground arith

-- A body whose length is its CONTENT_LENGTH is read as it is.
store_size-decimal : (max n : ℕ) → n ≤ max → n < 2 ^ 64 → store_size max (decimal n) ≡ n
unfolding store_size
store_size-decimal max n fits lt =
    ap (capped_size max) (strtoul-decimal n lt) ∙ capped_size-all max n fits

-- The query string of a request for a hash.
abbrev pub hash_query : Text → Text
hash_query h = b'h' ∷ b'a' ∷ b's' ∷ b'h' ∷ b'=' ∷ h

pub get_block_hash-hash_query : (h : Text) → get_block_hash (hash_query h) ≡ some h
unfolding get_block_hash
get_block_hash-hash_query h = refl

-- A client's request to store a body under a hash, and one for the block of a hash.
abbrev pub store_request : Text → Text → Text → Request
store_request h body beyond = record {
  content_length = some (decimal (length body));
  query_string = some (hash_query h);
  body = body;
  beyond = beyond;
}

abbrev pub fetch_request : Text → Text → Text → Text → Request
fetch_request h clenstr body beyond = record {
  content_length = some clenstr;
  query_string = some (hash_query h);
  body = body;
  beyond = beyond;
}

get_request_body-store_request :
    (h body beyond : Text)
    → length body ≤ store_max
    → get_request_body store_max (store_request h body beyond) ≡ body
unfolding get_request_body
get_request_body-store_request h body beyond fits =
    rw (store_size-decimal store_max (length body) fits (omega arith)) (get_chars-length body)

-- Opening the directory leaves its blocks.
pub record IsDirectory (D : Directory) : Type 0 where
  pub level_db : IsLevelDb D.db
  pub get-open_db :
      (create : Bool) (k : Text) (s : D.db.State) → D.db.get k (D.open_db create s).1 ≡ D.db.get k s

-- The page of block_store, with the address of the server if it was found.
abbrev pub store_page : Text → Option Text → Text
store_page h none = store_error (text "Unable to retrieve IP address")
store_page h (some ip) = success_page h ip

module _ (D : Directory) (I : IsDirectory D) (fuel : ℕ) where
  -- Within the fuel the directory opens, and then the block is put.
  abbrev pub Stores : Text → Text → D.db.State → Type 0
  Stores h content s =
      Succeeds (D.open_db true) fuel s
      × Succeeds (D.db.put h content) fuel (settled (D.open_db true) fuel s)

  abbrev pub Loads : D.db.State → Type 0
  Loads s = Succeeds (D.open_db false) fuel s

  abbrev pub opened : Bool → D.db.State → D.db.State
  opened create s = settled (D.open_db create) fuel s

  abbrev pub stored : Text → Text → D.db.State → D.db.State
  stored h content s = settled (D.db.put h content) fuel (opened true s)

  get-opened :
      (create : Bool) (k : Text) (s : D.db.State) → D.db.get k (opened create s) ≡ D.db.get k s
  get-opened create k s =
      settled-keeps (D.open_db create) (D.db.get k) (I.get-open_db create k) fuel s

  get-stored_self :
      (h content : Text) (s : D.db.State)
      → Stores h content s
      → D.db.get h (stored h content s) ≡ some content
  get-stored_self h content s (_, puts) =
      settled-holds (D.db.put h content) (λ t. D.db.get h t ≡ some content)
        (I.level_db.get-put_self h content) fuel (opened true s) puts

  get-stored_ne :
      (h k content : Text) (s : D.db.State) → h ≢ k → D.db.get k (stored h content s) ≡ D.db.get k s
  get-stored_ne h k content s ne =
      settled-keeps (D.db.put h content) (D.db.get k) (λ t. I.level_db.get-put_ne h k content t ne)
        fuel (opened true s)
      ∙ get-opened true k s

  store_block_lem :
      (h content : Text) (s : D.db.State)
      → Stores h content s
      → store_block D fuel h content s ≡ (ok tt, stored h content s)
  unfolding store_block ◌>>=◌
  store_block_lem h content s (opens, puts) = rw (
    retry_lem (D.open_db true) fuel s opens,
    retry_lem (D.db.put h content) fuel (opened true s) puts,
  )

  load_block_lem :
      (h : Text) (s : D.db.State)
      → Loads s
      → load_block D fuel h s ≡ (ok (D.db.get h s), opened false s)
  unfolding load_block ◌>>=◌
  load_block_lem h s opens = rw (retry_lem (D.open_db false) fuel s opens, get-opened false h s)

  -- If within the fuel the database opens and takes the block, block_store ends with the page of
  -- the address lookup, and the block is stored, also where this page is the error that no address
  -- was found. The body has the length of its CONTENT_LENGTH, at most STDIN_MAX, and the lookup
  -- does not crash.
  pub block_store_lem :
      (eth0 h body beyond : Text) (address : Option Text) (w : BlockWorld D)
      → length body ≤ store_max
      → ((x : BlockWorld D) → get_ip_address eth0 x ≡ (ok address, x))
      → Stores h body w.db
      → (block_store D fuel eth0 (store_request h body beyond) w
          ≡ (ok tt, record { db = stored h body w.db; out = w.out ++ store_page h address }))
        × (D.db.get h (stored h body w.db) ≡ some body)
  unfolding block_store block_store_of on_directory print ◌>>=◌
  block_store_lem eth0 h body beyond none w fits ip stores = (
    rw (get_request_body-store_request h body beyond fits, store_block_lem h body w.db stores, ip),
    get-stored_self h body w.db stores,
  )
  block_store_lem eth0 h body beyond (some a) w fits ip stores = (
    rw (get_request_body-store_request h body beyond fits, store_block_lem h body w.db stores, ip),
    get-stored_self h body w.db stores,
  )

  pub block_fetch_lem :
      (h clenstr body beyond : Text) (w : BlockWorld D)
      → Loads w.db
      → block_fetch D fuel (fetch_request h clenstr body beyond) w
        ≡ (ok tt, record { db = opened false w.db; out = w.out ++ fetch_page (D.db.get h w.db) })
  unfolding block_fetch response_body gstdin on_directory print ◌>>=◌
  block_fetch_lem h clenstr body beyond w loads = rw (load_block_lem h w.db loads)

  -- What block_store stores for a hash of the query string, block_fetch serves for this hash: its
  -- page is the 200 head with the length of the block, and the block. The request for the block has
  -- a CONTENT_LENGTH too, without which block_fetch would crash. The body that is stored has the
  -- length of its CONTENT_LENGTH, at most STDIN_MAX, the address of the server is looked up without
  -- a crash, and within the fuel the database opens for each request and takes the block.
  pub block_fetch-block_store :
      (eth0 h body beyond clenstr body' beyond' : Text) (address : Option Text) (w : BlockWorld D)
      → length body ≤ store_max
      → ((x : BlockWorld D) → get_ip_address eth0 x ≡ (ok address, x))
      → Stores h body w.db
      → Loads (stored h body w.db)
      → block_fetch D fuel
          (fetch_request h clenstr body' beyond')
          (block_store D fuel eth0 (store_request h body beyond) w).1
        ≡ (
          ok tt,
          record {
            db = opened false (stored h body w.db);
            out = (w.out ++ store_page h address) ++ (fetch_head body ++ body);
          },
        )
  unfolding fetch_page
  block_fetch-block_store eth0 h body beyond clenstr body' beyond' address w fits ip stores loads =
      let after : BlockWorld D = record {
        db = stored h body w.db;
        out = w.out ++ store_page h address;
      } in
      rw (
        (block_store_lem eth0 h body beyond address w fits ip stores).0,
        block_fetch_lem h clenstr body' beyond' after loads,
        get-stored_self h body w.db stores,
      )
