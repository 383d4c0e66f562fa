-- ===== src/Schema/Hooks/Runs.antt =====
-- Hook lists: a run is the run of the wildcard's hooks and the table's own, in that order.
use titanium_graph_api.Base.{◌≡◌, sym, refl, List, [], ◌∷◌, ◌++◌, codes, lookup}
use titanium_graph_api.Results.{Result, ok, err, ◌>>=◌}
use titanium_graph_api.Schema.Hooks.{
  MutationEvent, HookMap, MutationHook, hooks_at, hook_key, run_each, run_hook_list,
}

module _ (S : Type 0) where
  run_each-append :
      (fs gs : List (MutationHook S)) (ev : MutationEvent) (s : S)
      → run_each S (fs ++ gs) ev s ≡ (run_each S fs ev s >>= λ s'. run_each S gs ev s')
  unfolding run_each
  run_each-append [] gs ev s = refl
  run_each-append (f ∷ fs) gs ev s = after (f ev s) (λ s'. run_each-append fs gs ev s')
    where
      after :
          (r : Result S)
          → ((s' : S)
              → run_each S (fs ++ gs) ev s' ≡ (run_each S fs ev s' >>= λ t. run_each S gs ev t))
          → (r >>= λ s'. run_each S (fs ++ gs) ev s')
            ≡ ((r >>= λ s'. run_each S fs ev s') >>= λ t. run_each S gs ev t)
      after (err e) ih = refl
      after (ok s') ih = ih s'

  -- The hooks that run for an event are those of "*" followed by those of its table, one after the
  -- other on the transaction's state until one fails.
  run_hook_list_lem :
      (ev : MutationEvent) (set : HookMap S) (s : S)
      → run_hook_list S ev set s
        ≡ run_each S
            (hooks_at S (lookup (hook_key (codes "*") ev.op) set)
              ++ hooks_at S (lookup (hook_key ev.table ev.op) set))
            ev
            s
  unfolding run_hook_list
  run_hook_list_lem ev set s = sym (
      run_each-append (hooks_at S (lookup (hook_key (codes "*") ev.op) set))
        (hooks_at S (lookup (hook_key ev.table ev.op) set)) ev s)
