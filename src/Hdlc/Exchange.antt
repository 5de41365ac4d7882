-- ===== src/Hdlc/Exchange.antt =====
-- `dc_hdlc_read` takes what `dc_hdlc_write` sends, both of src/hdlc.c.
use libdivecomputer.Base.{ℕ, ◌≤◌, ◌<◌, ◌≡◌, refl, sym, ap, ◌∙◌, List, [], ◌∷◌, ◌++◌, length, drop}
use libdivecomputer.Status.{success}
use libdivecomputer.Hdlc.{Port, Reply, dc_hdlc_write, dc_hdlc_read}
use libdivecomputer.Hdlc.Encode.{Takes, encode, dc_hdlc_write_lem}
use libdivecomputer.Hdlc.Chunks.{joined, replies_of}
use libdivecomputer.Hdlc.Decode.{dc_hdlc_read-encode}

drop_prefix : (xs ys : List ℕ) → drop (length xs) (xs ++ ys) ≡ ys
drop_prefix [] ys = refl
drop_prefix (x ∷ xs) ys = drop_prefix xs ys

same_rest : (xs ys zs : List ℕ) → xs ++ ys ≡ xs ++ zs → ys ≡ zs
same_rest xs ys zs e = sym (drop_prefix xs ys) ∙ ap (drop (length xs)) e ∙ drop_prefix xs zs

module _ {S : Type 0} (port : Port S) (n : ℕ) (sent : S → List ℕ) (takes : Takes port n sent) where
  -- Over a base stream that takes writes of up to `n` bytes, with `n` the positive size of the write
  -- buffer: `dc_hdlc_write` succeeds, and what it has sent, followed by anything, is read back by
  -- `dc_hdlc_read` on the other side. For data that fits the buffer of the reader, the read succeeds and
  -- returns exactly the data, however the bytes are cut into those already cached and the chunks that
  -- its base stream returns, empty ones included. The bytes after the frame are still there for the
  -- next read.
  pub dc_hdlc_read-write :
      (bytes written rest cache : List ℕ) (s : S) (size : ℕ) (chunks : List (List ℕ))
      (later : List Reply)
      → 0 < n
      → length bytes ≤ size
      → sent (dc_hdlc_write port n bytes s).3 ≡ sent s ++ written
      → cache ++ joined chunks ≡ written ++ rest
      → ((dc_hdlc_write port n bytes s).0 ≡ success)
        × (left : List ℕ) × (unread : List (List ℕ)) × (dc_hdlc_read size cache
              (replies_of chunks later)
            ≡ record {
              status = success;
              bytes = bytes;
              actual = length bytes;
              cache = left;
              replies = replies_of unread later;
            })
        × (left ++ joined unread ≡ rest)
  dc_hdlc_read-write bytes written rest cache s size chunks later some_room fits log cut =
      let (s', e, log') = dc_hdlc_write_lem port n sent takes bytes s some_room in
      let frame : written ≡ encode bytes =
        same_rest (sent s) written (encode bytes) (sym log ∙ ap (λ r. sent r.3) e ∙ log') in
      let (left, unread, e', z) =
        dc_hdlc_read-encode size bytes rest cache chunks later fits
          (cut ∙ ap (λ l. l ++ rest) frame) in
      (ap (λ r. r.0) e, left, unread, e', z)
