-- ===== src/CrHandler/Mirror.antt =====
-- The cache follows the cluster: a specification of the resources of the cluster as a function of
-- their names, and proofs that the cache of k8scrhandler.py refines it.
use mathlib.Core.Path.{fun_ext}
use ewm_cloud_robotics.Prelude.{
  String, str_eq, eq_iff, ◌≡◌, refl, ◌∙◌, ap, ◌⊎◌, if-true, any, Bool, true, false, Bool-cases, inl,
  inr, Option, none, some, List, [], ◌∷◌, ◌++◌, if◌then◌else◌, arith,
}
use ewm_cloud_robotics.CrHandler.Events.{
  Operation, added, modified, deleted, reprocess, other, Resource, WatchItem, event,
}
use ewm_cloud_robotics.CrHandler.Cache.{
  get_cr, pop_cr, set_cr, cache_custom_resource, cache_of, Watcher, ListResponse,
  refresh_custom_resource_cache, init_watcher, submit_all, version_or, handle_event, watch_on_crs,
}

-- The resources of the cluster, by name.
abbrev pub Cluster {ℓ} : Type ℓ → Type ℓ
Cluster A = String → Option (Resource A)

module _ {ℓ} {A : Type ℓ} where
  -- A change of the cluster: a resource is created or changed, or it is gone.
  abbrev pub change : Operation → Resource A → Cluster A → Cluster A
  change added r s x = if str_eq x r.name then some r else s x
  change modified r s x = if str_eq x r.name then some r else s x
  change deleted r s x = if str_eq x r.name then none else s x
  change reprocess r s x = s x
  change (other t) r s x = s x

  abbrev pub replay : List (Operation × Resource A) → Cluster A → Cluster A
  replay [] s = s
  replay ((op, r) ∷ es) s = replay es (change op r s)

  -- The stream that reports these changes.
  abbrev pub stream : List (Operation × Resource A) → List (WatchItem A)
  stream [] = []
  stream ((op, r) ∷ es) = event op r ∷ stream es

  get_cr-set_cr :
      (x : String) (r : Resource A) (c : List (Resource A))
      → get_cr x (set_cr r c) ≡ (if str_eq x r.name then some r else get_cr x c)
  unfolding get_cr set_cr
  get_cr-set_cr x r [] = refl
  get_cr-set_cr x r (q ∷ qs) =
      ground (arith, get_cr-set_cr x r qs, eq_iff x r.name, eq_iff x q.name, eq_iff r.name q.name)

  get_cr-pop_cr :
      (x y : String) (c : List (Resource A))
      → get_cr x (pop_cr y c) ≡ (if str_eq x y then none else get_cr x c)
  unfolding get_cr pop_cr
  get_cr-pop_cr x y [] = ground arith
  get_cr-pop_cr x y (q ∷ qs) =
      ground (arith, get_cr-pop_cr x y qs, eq_iff x y, eq_iff x q.name, eq_iff y q.name)

  get_cr-cache :
      (op : Operation) (r : Resource A) (c : List (Resource A)) (x : String)
      → get_cr x (cache_custom_resource op r c) ≡ change op r (λ y. get_cr y c) x
  unfolding cache_custom_resource
  get_cr-cache added r c x = get_cr-set_cr x r c
  get_cr-cache modified r c x = get_cr-set_cr x r c
  get_cr-cache deleted r c x = get_cr-pop_cr x r.name c
  get_cr-cache reprocess r c x = refl
  get_cr-cache (other t) r c x = refl

  -- What a watcher reads of its cache.
  abbrev pub view : Watcher A → Cluster A
  view w x = get_cr x w.cr_cache

  view-handle_event :
      (op : Operation) (r : Resource A) (w : Watcher A)
      → view (handle_event op r w) ≡ change op r (view w)
  unfolding handle_event
  view-handle_event op r w = fun_ext λ x. get_cr-cache op r w.cr_cache x

  -- A watcher that runs reads after a stream of events what the cluster holds after the changes
  -- that they report, from what it read before.
  pub watch_on_crs-replay :
      (es : List (Operation × Resource A)) (w : Watcher A)
      → w.thread_run ≡ true
      → view (watch_on_crs (stream es) w) ≡ replay es (view w)
  unfolding watch_on_crs
  watch_on_crs-replay [] w h = refl
  watch_on_crs-replay ((op, r) ∷ es) w h =
      ap view (if-true _ w h)
      ∙ watch_on_crs-replay es (handle_event op r w) (unfold handle_event in h)
      ∙ ap (replay es) (view-handle_event op r w)

  replay_append :
      (es fs : List (Operation × Resource A)) (s : Cluster A)
      → replay (es ++ fs) s ≡ replay fs (replay es s)
  replay_append [] fs s = refl
  replay_append ((op, r) ∷ es) fs s = replay_append es fs (change op r s)

  -- The change says what becomes of the name.
  abbrev tells : String → Operation × Resource A → Bool
  tells x (added, r) = str_eq x r.name
  tells x (modified, r) = str_eq x r.name
  tells x (deleted, r) = str_eq x r.name
  tells x (reprocess, r) = false
  tells x (other t, r) = false

  change_told :
      (op : Operation) (r : Resource A) (s t : Cluster A) (x : String)
      → (tells x (op, r) ≡ true) ⊎ (s x ≡ t x)
      → change op r s x ≡ change op r t x
  change_told added r s t x h = ground arith
  change_told modified r s t x h = ground arith
  change_told deleted r s t x h = ground arith
  change_told reprocess r s t x h = ground arith
  change_told (other u) r s t x h = ground arith

  change_untold :
      (op : Operation) (r : Resource A) (s : Cluster A) (x : String)
      → tells x (op, r) ≡ false
      → change op r s x ≡ s x
  change_untold added r s x h = ground arith
  change_untold modified r s x h = ground arith
  change_untold deleted r s x h = ground arith
  change_untold reprocess r s x h = refl
  change_untold (other u) r s x h = refl

  -- What changes make of a name that they tell of does not depend on what was before.
  replay_told :
      (es : List (Operation × Resource A)) (s t : Cluster A) (x : String)
      → (any (tells x) es ≡ true) ⊎ (s x ≡ t x)
      → replay es s x ≡ replay es t x
  replay_told [] s t x h = ground arith
  replay_told ((op, r) ∷ es) s t x h =
      ground (arith, replay_told es (change op r s) (change op r t) x, change_told op r s t x)

  replay_untold :
      (es : List (Operation × Resource A)) (s : Cluster A) (x : String)
      → any (tells x) es ≡ false
      → replay es s x ≡ s x
  replay_untold [] s x h = refl
  replay_untold ((op, r) ∷ es) s x h =
      ground (arith, replay_untold es (change op r s) x, change_untold op r s x)

  untold_append :
      (es fs : List (Operation × Resource A)) (x : String)
      → any (tells x) (es ++ fs) ≡ false
      → any (tells x) es ≡ false
  untold_append [] fs x h = refl
  untold_append (e ∷ es) fs x h = ground (arith, untold_append es fs x)

  -- To replay changes once more from a state that has seen the first of them changes nothing.
  replay_again :
      (es fs : List (Operation × Resource A)) (s : Cluster A) (x : String)
      → replay (es ++ fs) (replay es s) x ≡ replay (es ++ fs) s x
  replay_again es fs s x = elim (Bool-cases (any (tells x) (es ++ fs))) [
    | inl told ↦ replay_told (es ++ fs) (replay es s) s x (inl told)
    | inr untold ↦
        replay_told (es ++ fs) (replay es s) s x
          (inr (replay_untold es s x (untold_append es fs x untold)))
  ]

  -- The cache that is filled from a list reads as the list does.
  abbrev pub listed : ListResponse A → Cluster A
  listed resp x = get_cr x (cache_of resp.items [])

  -- A list may be ahead of the stream: the periodic refresh of the cache with a list of the
  -- cluster that already holds some of the changes that the stream has yet to report does no
  -- harm. Once the stream has caught up, the cache reads as the cluster does.
  pub refresh-converges :
      (seen pending : List (Operation × Resource A)) (s : Cluster A) (resp : ListResponse A)
      (w : Watcher A)
      → w.thread_run ≡ true
      → listed resp ≡ replay seen s
      → view (watch_on_crs (stream (seen ++ pending)) (refresh_custom_resource_cache resp w))
        ≡ replay (seen ++ pending) s
  unfolding refresh_custom_resource_cache
  refresh-converges seen pending s resp w h e =
      watch_on_crs-replay (seen ++ pending) (record w { cr_cache = cache_of resp.items [] }) h
      ∙ ap (replay (seen ++ pending)) e
      ∙ fun_ext (replay_again seen pending s)

  init_watcher-cache :
      (op : Operation) (items : List (Option (Resource A))) (w : Watcher A)
      → ((submit_all op items w).cr_cache ≡ w.cr_cache)
        × ((submit_all op items w).thread_run ≡ w.thread_run)
  unfolding submit_all
  init_watcher-cache op [] w = (refl, refl)
  init_watcher-cache op (none ∷ items) w = init_watcher-cache op items w
  init_watcher-cache op (some r ∷ items) w =
      init_watcher-cache op items (record w { submitted = (op, r) ∷ w.submitted })

  -- A watcher that starts with a list of the cluster and then reads the stream of the changes
  -- after it holds in its cache what the cluster holds.
  pub init_watcher-mirrors :
      (es : List (Operation × Resource A)) (s : Cluster A) (resp : ListResponse A) (w : Watcher A)
      → w.thread_run ≡ true
      → listed resp ≡ s
      → view (watch_on_crs (stream es) (init_watcher resp w)) ≡ replay es s
  unfolding init_watcher refresh_custom_resource_cache
  init_watcher-mirrors es s resp w h e =
      let (kept, runs) = init_watcher-cache added resp.items (record w {
        cr_cache = cache_of resp.items [];
        resv_watcher = version_or "" resp.version;
      }) in
      watch_on_crs-replay es (init_watcher resp w) (runs ∙ h)
      ∙ ap (replay es) (fun_ext (λ x. ap (get_cr x) kept) ∙ e)
