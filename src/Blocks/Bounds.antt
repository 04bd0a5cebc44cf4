-- ===== src/Blocks/Bounds.antt =====
-- How much of a request body block_store reads, and how long its loops run.
use balabox.Base.{ℕ, zero, suc, ◌≤◌, ◌≡◌, ap, refl, [], ◌∷◌, inl, inr, Option-cases, length, arith}
use balabox.Base.Text.{Text}
use balabox.Base.Decimal.{strtoul}
use balabox.Web.{Request}
use balabox.Web.Bounds.{capped_size-le}
use balabox.Blocks.Store.{get_chars, store_size, get_request_body}

length-get_chars : (n : ℕ) (s : Text) → length (get_chars n s) ≡ n
unfolding get_chars
length-get_chars zero s = refl
length-get_chars (suc n) [] = ap suc (length-get_chars n [])
length-get_chars (suc n) (c ∷ s) = ap suc (length-get_chars n s)

-- x
pub length-get_request_body : (max : ℕ) (r : Request) → length (get_request_body max r) ≤ max
unfolding get_request_body store_size
length-get_request_body max r = elim (Option-cases r.content_length) [
  | inl missing ↦ rw missing (omega arith)
  | inr (clenstr, there) ↦
      rw (there, length-get_chars (store_size max clenstr) r.body)
        (capped_size-le max (strtoul clenstr))
]
