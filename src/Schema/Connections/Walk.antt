-- ===== src/Schema/Connections/Walk.antt =====
-- Walking a connection page by page, each time behind the cursor of the page before.
use titanium_graph_api.Base.{
  ℕ, zero, suc, ◌<◌, ◌≡◌, ◌≢◌, refl, sym, ap, ◌∙◌, inl, inr, List, [], ◌∷◌, ◌++◌, Text, true, false,
  ◌&&◌, Option, none, some, length, take, drop, take-append-drop, length-take, length-drop, ltb,
  ltb→lt, min, Bool-cases, arith, All, append_assoc, if◌then◌else◌,
}
use titanium_graph_api.Base.Int.{pos, ltb_ℤ}
use titanium_graph_api.Results.{Result, ok, ◌>>=◌, Ensures-eq-ok}
use titanium_graph_api.Schema.Scalars.Formats.{Formats}
use titanium_graph_api.Schema.Scalars.Convert.{Row}
use titanium_graph_api.Schema.Cursors.{Codec, encode_cursor, decode_cursor}
use titanium_graph_api.Schema.Connections.{
  Page, page_from, keys_of, end_cursor_of, page_of, after_keys,
}
use titanium_graph_api.Schema.Connections.Pages.{
  Reads, IsPageOf, take_all, page_of-IsPageOf, decode_cursor-encode_cursor,
}

module _ (codec : Codec) (fmt : Formats) (primary_key : List Text) (shape : Text)
    (seek : Option (List Text) → ℕ → List Row) (n : ℕ) where
  -- A client that asks for pages of `n` rows until there is no next page, for at most `fuel` pages.
  abbrev next_pages : (Option Text → Result (List Row)) → Page → Result (List Row)
  next_pages again p =
      if p.has_next_page then (do rest ← again p.end_cursor; ok (p.nodes ++ rest)) else ok p.nodes

  unfoldable pub walk : ℕ → Option Text → Result (List Row)
  walk zero cursor = ok []
  walk (suc fuel) cursor = do
    keys ← after_keys codec fmt primary_key shape cursor
    p ← page_of codec fmt primary_key shape (pos n) (seek keys (suc n))
    next_pages (walk fuel) p

page_of-total :
    (codec : Codec) (fmt : Formats) (primary_key : List Text) (shape : Text) (m : ℕ)
    (rows : List Row)
    → (p : Page) × (page_of codec fmt primary_key shape (pos m) rows ≡ ok p)
unfolding page_of
page_of-total codec fmt primary_key shape m rows =
    elim (Bool-cases (ltb_ℤ (pos m) (pos (length rows)))) [
      | inl e ↦ (page_from codec fmt primary_key shape true (take m rows), rw e refl)
      | inr e ↦ (page_from codec fmt primary_key shape false rows, rw e refl)
    ]

take-take : (n : ℕ) (rows : List Row) → take n (take (suc n) rows) ≡ take n rows
take-take zero rows = refl
take-take (suc n) [] = refl
take-take (suc n) (r ∷ rs) = ap (λ x. r ∷ x) (take-take n rs)

-- The last of the first rows.
split_last :
    (n : ℕ) (rows : List Row)
    → 0 < n
    → n < length rows
    → (front : List Row) × (last : Row) × (take n rows ≡ front ++ last ∷ [])
split_last zero rows h k = absurd (omega arith)
split_last (suc n) [] h k = absurd (omega arith)
split_last (suc zero) (r ∷ rs) h k = ([], r, refl)
split_last (suc (suc n)) (r ∷ rs) h k =
    let (front, last, e) = split_last (suc n) rs (omega arith) (omega arith) in
    (r ∷ front, last, ap (λ x. r ∷ x) e)

module _ (codec : Codec) (fmt : Formats) (primary_key : List Text) (shape : Text) where
  end_cursor_of-last :
      (front : List Row) (last : Row)
      → end_cursor_of codec fmt primary_key shape (front ++ last ∷ [])
        ≡ some (encode_cursor codec (keys_of codec fmt primary_key last) shape)
  unfolding end_cursor_of
  end_cursor_of-last [] last = refl
  end_cursor_of-last (r ∷ []) last = refl
  end_cursor_of-last (r ∷ s ∷ front) last = end_cursor_of-last (s ∷ front) last

  keys_of-length : (pks : List Text) (row : Row) → length (keys_of codec fmt pks row) ≡ length pks
  unfolding keys_of
  keys_of-length [] row = refl
  keys_of-length (pk ∷ pks) row = ap suc (keys_of-length pks row)

  after_keys-cursor :
      (c : Text) (keys : List Text)
      → c ≢ []
      → decode_cursor codec c shape (length primary_key) ≡ ok keys
      → after_keys codec fmt primary_key shape (some c) ≡ ok (some keys)
  unfolding after_keys
  after_keys-cursor [] keys ne e = absurd (ne refl)
  after_keys-cursor (c ∷ s) keys ne e = rw e refl

  module _ (IsUtf8 : Text → Type 0) (reads : Reads codec IsUtf8)
      (seek : Option (List Text) → ℕ → List Row) (source : List Row) where
    -- The database: the rows in key order, and those behind the keys of a row.
    pub record Seeks : Type 0 where
      pub from_start : (limit : ℕ) → seek none limit ≡ take limit source
      pub behind :
          (front : List Row) (row : Row) (rest : List Row) (limit : ℕ)
          → source ≡ front ++ row ∷ rest
          → seek (some (keys_of codec fmt primary_key row)) limit ≡ take limit rest
      pub texts :
          (front : List Row) (row : Row) (rest : List Row)
          → source ≡ front ++ row ∷ rest
          → All IsUtf8 (keys_of codec fmt primary_key row)

    module _ (seeks : Seeks) (utf8 : IsUtf8 shape) (n : ℕ) (positive : 0 < n) where
      resumes :
          (front : List Row) (row : Row) (rest : List Row)
          → source ≡ front ++ row ∷ rest
          → after_keys codec fmt primary_key shape
              (some (encode_cursor codec (keys_of codec fmt primary_key row) shape))
            ≡ ok (some (keys_of codec fmt primary_key row))
      resumes front row rest e =
          after_keys-cursor _ (keys_of codec fmt primary_key row)
            (reads.present (keys_of codec fmt primary_key row) shape)
            (rw (← keys_of-length primary_key row)
              (decode_cursor-encode_cursor codec IsUtf8 reads (keys_of codec fmt primary_key row)
                shape (seeks.texts front row rest e) utf8).0)

      -- A page of `n` rows out of those behind some row.
      record At (rest : List Row) (p : Page) : Type 0 where
        nodes : p.nodes ≡ take n rest
        has_next : p.has_next_page ≡ ltb n (length rest)
        end_cursor : p.end_cursor ≡ end_cursor_of codec fmt primary_key shape (take n rest)

      At-IsPageOf :
          (rest : List Row) (p : Page)
          → IsPageOf codec fmt primary_key shape n (take (suc n) rest) p
          → At rest p
      At-IsPageOf rest p (a, b, c) = record {
        nodes = a ∙ take-take n rest;
        has_next = b ∙ more (length rest) (length (take (suc n) rest)) (length-take (suc n) rest);
        end_cursor = c ∙ ap (λ x. end_cursor_of codec fmt primary_key shape x) (take-take n rest);
      }
        where
          more : (l k : ℕ) → k ≡ min (suc n) l → (ltb 0 n && ltb n k) ≡ ltb n l
          more l k e = ground arith

      page_of-At :
          (rest : List Row)
          → (p : Page) × (page_of codec fmt primary_key shape (pos n) (take (suc n) rest) ≡ ok p)
            × At rest p
      page_of-At rest =
          let (p, e) = page_of-total codec fmt primary_key shape n (take (suc n) rest) in
          (
            p,
            e,
            At-IsPageOf rest p (
                Ensures-eq-ok (IsPageOf codec fmt primary_key shape n (take (suc n) rest)) _
                  (page_of-IsPageOf codec fmt primary_key shape n (take (suc n) rest)) e),
          )

      abbrev walking : ℕ → Option Text → Result (List Row)
      walking fuel cursor = walk codec fmt primary_key shape seek n fuel cursor

      walk_rest :
          (fuel : ℕ) (front rest : List Row) (cursor : Option Text) (keys : Option (List Text))
          → after_keys codec fmt primary_key shape cursor ≡ ok keys
          → ((limit : ℕ) → seek keys limit ≡ take limit rest)
          → source ≡ front ++ rest
          → length rest < fuel
          → walking fuel cursor ≡ ok rest
      unfolding walk
      walk_rest zero front rest cursor keys a s e lt = absurd (omega arith)
      walk_rest (suc fuel) front rest cursor keys a s e lt =
          let (p, q, at) = page_of-At rest in
          rw (a, s (suc n), q)
            (elim (Bool-cases (ltb n (length rest))) [
              | inl more ↦
                  let (xs, last, sp) = split_last n rest positive (ltb→lt n (length rest) more) in
                  let whole : source ≡ (front ++ xs) ++ last ∷ drop n rest =
                    e
                    ∙ ap (λ x. front ++ x)
                        (sym (take-append-drop n rest)
                          ∙ ap (λ x. x ++ drop n rest) sp
                          ∙ append_assoc xs (last ∷ []) (drop n rest))
                    ∙ sym (append_assoc front xs (last ∷ drop n rest)) in
                  rw (at.has_next, more, at.nodes, at.end_cursor, sp, end_cursor_of-last xs last)
                    (ap (λ r. r >>= λ later. ok ((xs ++ last ∷ []) ++ later))
                        (walk_rest fuel ((front ++ xs) ++ last ∷ []) (drop n rest)
                          (some (encode_cursor codec (keys_of codec fmt primary_key last) shape))
                          (some (keys_of codec fmt primary_key last))
                          (resumes (front ++ xs) last (drop n rest) whole)
                          (λ limit. seeks.behind (front ++ xs) last (drop n rest) limit whole)
                          (whole ∙ sym (append_assoc (front ++ xs) (last ∷ []) (drop n rest)))
                          (omega (arith, length-drop n rest, ltb→lt n (length rest) more)))
                      ∙ ap ok (ap (λ x. x ++ drop n rest) (sym sp) ∙ take-append-drop n rest))
              | inr done ↦
                  rw (at.has_next, done, at.nodes) (ap ok (sym (take_all n rest (ground arith))))
            ])

      started : after_keys codec fmt primary_key shape none ≡ ok none
      unfolding after_keys
      started = refl

      -- Suppose that the database answers a query for the rows behind a key with the rows that follow
      -- it in key order, that the keys of the rows and the shape of the query are valid UTF-8, and
      -- that JSON reads back cursors of valid UTF-8 that it wrote, and base64 any text. Then a client
      -- that asks for pages of a positive size, each time with the cursor of the page before, sees
      -- every row exactly once and in order, and is done after at most as many pages as there are
      -- rows, and one.
      pub walk_complete : (fuel : ℕ) → length source < fuel → walking fuel none ≡ ok source
      walk_complete fuel lt =
          walk_rest fuel [] source none none started (λ limit. seeks.from_start limit) refl lt
