-- ===== src/Schema/Loader/Tests.antt =====
-- A loader for posts by author: two authors, one of them without posts.
use titanium_graph_api.Base.{
  ◌≡◌, refl, List, [], ◌∷◌, Text, codes, some, none, true, false, member, text_eq, text_eq_iff,
  Bool, lookup, insert, if◌then◌else◌, Bool-cases, inl, inr,
}
use titanium_graph_api.Value.{str}
use titanium_graph_api.Results.{Result, ok}
use titanium_graph_api.Schema.Loader.{
  Key, Row, Groups, new_rel_loader, enqueue, fetch, sigs, merge, run_calls, enqueued, fetched, Call,
  group_by_columns, group_onto, row_key, next_batch,
}
use titanium_graph_api.Schema.Loader.Distinct.{AllDistinct}
use titanium_graph_api.Schema.Loader.Once.{issued, new_rel_loader-AllDistinct}
use titanium_graph_api.Schema.Loader.Grouping.{with_sig}
use titanium_graph_api.Schema.Loader.Unbatched.{Serves, fetch-run_calls}

run : Unit {0}
unfolding member text_eq lookup insert enqueue fetch sigs merge run_calls group_by_columns
    group_onto row_key next_batch issued with_sig
run = tt

abbrev sig : Key → Text
sig (str s ∷ ks) = s
sig _ = []

abbrev ada : Key
ada = str (codes "ada") ∷ []

abbrev bob : Key
bob = str (codes "bob") ∷ []

abbrev post : Text → Text → Row
post author title = (codes "author", str author) ∷ (codes "title", str title) ∷ []

abbrev stored : List Row
stored =
    post (codes "ada") (codes "notes")
    ∷ post (codes "eve") (codes "letters")
    ∷ post (codes "ada") (codes "engines")
    ∷ []

abbrev ada_posts : List Row
ada_posts = post (codes "ada") (codes "notes") ∷ post (codes "ada") (codes "engines") ∷ []

abbrev calls : List Call
calls = enqueued ada ∷ enqueued bob ∷ enqueued ada ∷ fetched bob ∷ enqueued ada ∷ fetched ada ∷ []

-- The rows of an author, and a load function that answers from them.
abbrev rows : Text → List Row
rows s = if text_eq (codes "ada") s then ada_posts else []

abbrev load : List Key → Groups
load ks = if member (codes "ada") (sigs sig ks) then (codes "ada", ada_posts) ∷ [] else []

abbrev load_fn : List Key → Result Groups
load_fn ks = ok (load ks)

new_rel_loader-AllDistinct_example : AllDistinct (issued sig load_fn calls new_rel_loader)
new_rel_loader-AllDistinct_example = new_rel_loader-AllDistinct sig load_fn calls

loads_both_once : issued sig load_fn calls new_rel_loader ≡ codes "ada" ∷ codes "bob" ∷ []
unfolding run
loads_both_once = refl

only_ada :
    (b : Bool) (ks : List Key) (s : Text) (r : List Row)
    → member (codes "ada") (sigs sig ks) ≡ b
    → lookup s (if b then (codes "ada", ada_posts) ∷ [] else []) ≡ some r
    → (member s (sigs sig ks) ≡ true) × (r ≡ rows s)
unfolding lookup
only_ada false ks s r e h = cc h
only_ada true ks s r e h = elim (Bool-cases (text_eq (codes "ada") s)) [
  | inl same ↦ (cc ((text_eq_iff (codes "ada") s).0 same, e), rw same (cc (rw same at h)))
  | inr other ↦ cc (rw other at h)
]

none_missing :
    (b : Bool) (ks : List Key) (s : Text)
    → member (codes "ada") (sigs sig ks) ≡ b
    → lookup s (if b then (codes "ada", ada_posts) ∷ [] else []) ≡ none
    → member s (sigs sig ks) ≡ true
    → rows s ≡ []
unfolding lookup
none_missing true ks s e h k = elim (Bool-cases (text_eq (codes "ada") s)) [
  | inl same ↦ absurd (cc (rw same at h))
  | inr other ↦ rw other refl
]
none_missing false ks s e h k = elim (Bool-cases (text_eq (codes "ada") s)) [
  | inl same ↦ absurd (cc ((text_eq_iff (codes "ada") s).0 same, e, k))
  | inr other ↦ rw other refl
]

serves : Serves sig load_fn rows
serves batch = (
  load batch,
  refl,
  record {
    given = λ s r h. only_ada (member (codes "ada") (sigs sig batch)) batch s r refl h;
    missing = λ s h k. none_missing (member (codes "ada") (sigs sig batch)) batch s refl h k;
  },
)

seen_bob : member (sig bob) (run_calls sig load_fn calls new_rel_loader).seen ≡ true
unfolding run
seen_bob = refl

fetch-run_calls_example :
    (fetch sig load_fn (run_calls sig load_fn calls new_rel_loader) bob).1 ≡ ok (rows (sig bob))
fetch-run_calls_example = fetch-run_calls sig load_fn rows calls bob serves seen_bob
