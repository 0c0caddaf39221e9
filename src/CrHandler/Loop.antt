-- ===== src/CrHandler/Loop.antt =====
-- The loop of the watcher thread (k8scrhandler.py): a watch ends, and the next one begins, with a
-- new list of the resources where the version is lost. That a thread sleeps is left out.
use ewm_cloud_robotics.Prelude.{
  String, str_eq, eq_iff, ◌≡◌, refl, ap, ◌∙◌, Bool, true, false, Option, none, some, List, [], ◌∷◌,
  if◌then◌else◌, if-true, if-false, arith,
}
use ewm_cloud_robotics.CrHandler.Events.{
  Operation, added, Resource, WatchItem, too_old, no_metadata, event,
}
use ewm_cloud_robotics.CrHandler.Cache.{
  Watcher, ListResponse, init_watcher, submit_all, refresh_custom_resource_cache, handle_event,
  watch_on_crs, cache_of, version_or,
}
use ewm_cloud_robotics.CrHandler.Mirror.{
  Cluster, replay, stream, view, listed, init_watcher-mirrors,
}

-- How a watch ends: the stream is closed, the cluster answers that the version is gone, with the
-- version that it names, if it names one, or with another error, or the connection breaks.
pub data WatchEnd : Type 0 where
  closed protocol_error api_error : WatchEnd
  api_gone : Option String → WatchEnd

-- An error of the cluster that names no version: any error but "gone", or "gone" without one.
abbrev pub names_no_version : WatchEnd → Bool
names_no_version api_error = true
names_no_version (api_gone none) = true
names_no_version _ = false

module _ {ℓ} {A : Type ℓ} where
  unfoldable pub after_watch : WatchEnd → Watcher A → Watcher A
  after_watch closed w = w
  after_watch protocol_error w = w
  after_watch api_error w = record w { resv_watcher = "" }
  after_watch (api_gone none) w = record w { resv_watcher = "" }
  after_watch (api_gone (some version)) w = record w { resv_watcher = version }

  -- The loop over the stream is left before its end.
  abbrev pub breaks : List (WatchItem A) → Bool
  breaks [] = false
  breaks (too_old (some version) ∷ items) = true
  breaks (too_old none ∷ items) = breaks items
  breaks (no_metadata ∷ items) = breaks items
  breaks (event op r ∷ items) = breaks items

  -- Without a version the watcher starts from a list.
  unfoldable pub start_watch : ListResponse A → Watcher A → Watcher A
  unfolding init_watcher
  start_watch resp w = if str_eq w.resv_watcher "" then init_watcher resp w else w

  -- One round of the loop: `resp` is the answer to a list request, should one be made, `items` what
  -- the stream delivers and `end` how it ends.
  unfoldable pub watch_round :
      ListResponse A → List (WatchItem A) → WatchEnd → Watcher A → Watcher A
  unfolding start_watch watch_on_crs after_watch
  watch_round resp items end w =
      let w' = watch_on_crs items (start_watch resp w) in
      if w.thread_run then if breaks items then w' else after_watch end w' else w

  submit_all-runs :
      (op : Operation) (items : List (Option (Resource A))) (w : Watcher A)
      → (submit_all op items w).thread_run ≡ w.thread_run
  unfolding submit_all
  submit_all-runs op [] w = refl
  submit_all-runs op (none ∷ items) w = submit_all-runs op items w
  submit_all-runs op (some r ∷ items) w =
      submit_all-runs op items (record w { submitted = (op, r) ∷ w.submitted })

  start_watch-runs :
      (resp : ListResponse A) (w : Watcher A) → (start_watch resp w).thread_run ≡ w.thread_run
  unfolding start_watch refresh_custom_resource_cache
  start_watch-runs resp w = ground (
    arith,
    submit_all-runs added resp.items
        (record w { cr_cache = cache_of resp.items []; resv_watcher = version_or "" resp.version }),
  )

  watch_on_crs-runs :
      (items : List (WatchItem A)) (w : Watcher A)
      → (watch_on_crs items w).thread_run ≡ w.thread_run
  unfolding watch_on_crs handle_event
  watch_on_crs-runs [] w = refl
  watch_on_crs-runs (too_old (some version) ∷ items) w = ground arith
  watch_on_crs-runs (too_old none ∷ items) w = ground (arith, watch_on_crs-runs items w)
  watch_on_crs-runs (no_metadata ∷ items) w = ground (arith, watch_on_crs-runs items w)
  watch_on_crs-runs (event op r ∷ items) w =
      ground (arith, watch_on_crs-runs items (handle_event op r w))

  breaks-stream : (es : List (Operation × Resource A)) → breaks (stream es) ≡ false
  breaks-stream [] = refl
  breaks-stream ((op, r) ∷ es) = breaks-stream es

  -- A round after the version was lost.
  fresh_round :
      (es : List (Operation × Resource A)) (resp : ListResponse A) (w : Watcher A)
      → w.thread_run ≡ true
      → w.resv_watcher ≡ ""
      → watch_round resp (stream es) closed w ≡ watch_on_crs (stream es) (init_watcher resp w)
  unfolding watch_round start_watch after_watch
  fresh_round es resp w run e = rw run (
      if-false _ _ (breaks-stream es)
      ∙ ap (watch_on_crs (stream es)) (if-true _ _ ((eq_iff w.resv_watcher "").1 e)))

  -- A round that ends in any way but by a break of the loop over the stream.
  ended_round :
      (resp : ListResponse A) (items : List (WatchItem A)) (end : WatchEnd) (w : Watcher A)
      → w.thread_run ≡ true
      → breaks items ≡ false
      → watch_round resp items end w ≡ after_watch end (watch_on_crs items (start_watch resp w))
  unfolding watch_round
  ended_round resp items end w run b = rw run (if-false _ _ b)

  after_watch-lost :
      (end : WatchEnd) (w : Watcher A)
      → names_no_version end ≡ true
      → after_watch end w ≡ record w { resv_watcher = "" }
  unfolding after_watch
  after_watch-lost api_error w h = refl
  after_watch-lost (api_gone none) w h = refl
  after_watch-lost (api_gone (some version)) w h = cc
  after_watch-lost closed w h = cc
  after_watch-lost protocol_error w h = cc

  -- After an error of the cluster that names no version, whatever was read and cached before, the
  -- next round starts from a list: at its end the cache holds what the cluster holds, if the
  -- loop over the stream was not left before the error, and the next stream reports the changes
  -- after the list and is closed.
  pub watch_round-recovers :
      (old : ListResponse A) (items : List (WatchItem A)) (end : WatchEnd) (w : Watcher A)
      (es : List (Operation × Resource A)) (s : Cluster A) (resp : ListResponse A)
      → names_no_version end ≡ true
      → w.thread_run ≡ true
      → breaks items ≡ false
      → listed resp ≡ s
      → view (watch_round resp (stream es) closed (watch_round old items end w)) ≡ replay es s
  watch_round-recovers old items end w es s resp lost run b l =
      let v : Watcher A = watch_on_crs items (start_watch old w) in
      let v' : Watcher A = record v { resv_watcher = "" } in
      let runs : v.thread_run ≡ true =
        watch_on_crs-runs items (start_watch old w) ∙ start_watch-runs old w ∙ run in
      ap (λ u. view (watch_round resp (stream es) closed u))
        (ended_round old items end w run b ∙ after_watch-lost end v lost)
      ∙ ap view (fresh_round es resp v' runs refl)
      ∙ init_watcher-mirrors es s resp v' runs l
