-- ===== src/Schema/Paging/Bounds.antt =====
-- pageBounds and applyPage: what page a request gets.
use titanium_graph_api.Base.{
  ◌⊎◌, false, ℕ, zero, suc, ◌∙◌, leb→le, ◌≤◌, ◌≡◌, refl, List, [], ◌∷◌, ltb, leb, length, take,
  drop, arith, Bool-cases, inl, inr,
}
use titanium_graph_api.Base.Int.{ℤ, pos, negsuc, pos_part, ltb_ℤ, ◌≤ℤ◌}
use titanium_graph_api.Results.{ok, Ensures, Ensures-eq-ok, Ensures-if}
use titanium_graph_api.Config.{SchemaGen}
use titanium_graph_api.Schema.Paging.{
  clamp, ListArgs, or_else, bounds_of, page_bounds, slice_to, slice_page, apply_page,
}

-- What the bounds of a page are, given the limit that was asked for.
pub record IsPage (gen : SchemaGen) (asked : ℤ) (bounds : ℤ × ℤ) : Type 0 where
  pub at_most_max : bounds.0 ≤ℤ gen.max_page_size
  pub at_most_asked : bounds.0 ≤ℤ asked
  pub limit : ((bounds.0 ≡ asked) × (pos 0 ≤ℤ asked)) ⊎ (bounds.0 ≡ gen.max_page_size)
  pub offset_nonneg : pos 0 ≤ℤ bounds.1

clamp_cases :
    (asked maximum : ℤ)
    → ltb_ℤ asked (pos 0) ≡ false
    → ((clamp asked maximum ≡ asked) × (pos 0 ≤ℤ asked)) ⊎ (clamp asked maximum ≡ maximum)
clamp_cases asked maximum e = elim (Bool-cases (ltb_ℤ maximum asked)) [
  | inl over ↦ inr (rw over refl)
  | inr within ↦ inl (rw within refl, ground arith)
]

limit_nonneg :
    (asked maximum limit : ℤ)
    → ((limit ≡ asked) × (pos 0 ≤ℤ asked)) ⊎ (limit ≡ maximum)
    → pos 0 ≤ℤ maximum
    → pos 0 ≤ℤ limit
limit_nonneg asked maximum limit (inl (e, h)) k = rw e h
limit_nonneg asked maximum limit (inr e) k = rw e k

bounds_of-IsPage :
    (gen : SchemaGen) (asked offset : ℤ) → Ensures (IsPage gen asked) (bounds_of gen asked offset)
bounds_of-IsPage gen asked offset =
    Ensures-if (IsPage gen asked) (ltb_ℤ asked (pos 0)) _ _ (λ e. tt)
      (λ e.
        Ensures-if (IsPage gen asked) (ltb_ℤ offset (pos 0)) _ _ (λ f. tt)
          (λ f. record {
            at_most_max = ground arith;
            at_most_asked = ground arith;
            limit = clamp_cases asked gen.max_page_size e;
            offset_nonneg = ground arith;
          }))

-- If a request gets bounds, the limit is at most the configured maximum and at most what was asked
-- for (the default, if nothing was); it is one of the two, and what was asked for is not negative
-- if it is that; and the offset is not negative.
page_bounds-IsPage :
    (gen : SchemaGen) (la : ListArgs) {bounds : ℤ × ℤ}
    → page_bounds gen la ≡ ok bounds
    → IsPage gen (or_else la.limit gen.default_page_size) bounds
unfolding page_bounds
page_bounds-IsPage gen la h =
    let asked = or_else la.limit gen.default_page_size in
    let offset = or_else la.offset (pos 0) in
    Ensures-eq-ok (IsPage gen asked) (bounds_of gen asked offset)
      (bounds_of-IsPage gen asked offset) h

module _ {ℓ} {A : Type ℓ} where
  take_all : (n : ℕ) (xs : List A) → length xs ≤ n → take n xs ≡ xs
  take_all zero [] h = refl
  take_all zero (x ∷ xs) h = absurd (omega arith)
  take_all (suc n) [] h = refl
  take_all (suc n) (x ∷ xs) h = cc (take_all n xs (omega arith))

  take-drop_all : (n o : ℕ) (xs : List A) → length xs ≤ o → take n (drop o xs) ≡ []
  take-drop_all zero o xs h = refl
  take-drop_all (suc n) zero [] h = refl
  take-drop_all (suc n) zero (x ∷ xs) h = absurd (omega arith)
  take-drop_all (suc n) (suc o) [] h = refl
  take-drop_all (suc n) (suc o) (x ∷ xs) h = take-drop_all (suc n) o xs (omega arith)

  slice_to_lem :
      (limit : ℤ) (xs : List A) → pos 0 ≤ℤ limit → slice_to limit xs ≡ ok (take (pos_part limit) xs)
  slice_to_lem (negsuc n) xs h = absurd (omega arith)
  slice_to_lem (pos n) xs h = elim (Bool-cases (ltb n (length xs))) [
    | inl e ↦ rw e refl
    | inr e ↦ rw (e, take_all n xs (ground arith)) refl
  ]

  slice_page_lem :
      (rows : List A) (limit offset : ℤ)
      → pos 0 ≤ℤ limit
      → pos 0 ≤ℤ offset
      → slice_page rows (limit, offset) ≡ ok (take (pos_part limit) (drop (pos_part offset) rows))
  slice_page_lem rows limit (negsuc n) h k = absurd (omega arith)
  slice_page_lem rows limit (pos o) h k = elim (Bool-cases (leb (length rows) o)) [
    | inl e ↦ rw (e, take-drop_all (pos_part limit) o rows (leb→le (length rows) o e)) refl
    | inr e ↦ rw e (slice_to_lem limit (drop o rows) h)
  ]

  apply_bounds :
      (gen : SchemaGen) (rows : List A) (la : ListArgs) (limit offset : ℤ)
      → page_bounds gen la ≡ ok (limit, offset)
      → apply_page gen rows la ≡ slice_page rows (limit, offset)
  unfolding apply_page
  apply_bounds gen rows la limit offset h = rw h refl

  -- If the configured maximum is not negative, the page cut in memory is exactly what the clause
  -- " LIMIT limit OFFSET offset" with the same bounds selects: the rows behind the offset, up to
  -- the limit, and no slice is out of bounds.
  pub apply_page_lem :
      (gen : SchemaGen) (rows : List A) (la : ListArgs) (limit offset : ℤ)
      → pos 0 ≤ℤ gen.max_page_size
      → page_bounds gen la ≡ ok (limit, offset)
      → apply_page gen rows la ≡ ok (take (pos_part limit) (drop (pos_part offset) rows))
  apply_page_lem gen rows la limit offset h e =
      let p = page_bounds-IsPage gen la e in
      apply_bounds gen rows la limit offset e
      ∙ slice_page_lem rows limit offset
          (limit_nonneg (or_else la.limit gen.default_page_size) gen.max_page_size limit p.limit h)
          p.offset_nonneg
