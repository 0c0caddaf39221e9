-- ===== src/CrHandler/Cache.antt =====
-- The cache of resources, and the methods of K8sCRHandler that fill it: the watch on the stream of
-- changes, its initialisation and the periodic synchronisation.
use ewm_cloud_robotics.Prelude.{
  String, str_eq, Bool, true, false, Option, none, some, List, [], ◌∷◌, if◌then◌else◌,
}
use ewm_cloud_robotics.CrHandler.Events.{
  Operation, added, modified, deleted, reprocess, other, Resource, WatchItem, too_old, no_metadata,
  event,
}

module _ {ℓ} {A : Type ℓ} where
  -- The keys of the cache are the names of the resources.
  unfoldable pub get_cr : String → List (Resource A) → Option (Resource A)
  get_cr x [] = none
  get_cr x (r ∷ rs) = let rest = get_cr x rs in if str_eq x r.name then some r else rest

  unfoldable pub pop_cr : String → List (Resource A) → List (Resource A)
  pop_cr x [] = []
  pop_cr x (r ∷ rs) = let rest = pop_cr x rs in if str_eq x r.name then rest else r ∷ rest

  -- A new key comes last, an old one keeps its place.
  unfoldable pub set_cr : Resource A → List (Resource A) → List (Resource A)
  set_cr r [] = r ∷ []
  set_cr r (q ∷ qs) = let rest = set_cr r qs in if str_eq r.name q.name then r ∷ qs else q ∷ rest

  unfoldable pub check_cr_exists : String → List (Resource A) → Bool
  check_cr_exists x [] = false
  check_cr_exists x (r ∷ rs) =
      let rest = check_cr_exists x rs in if str_eq x r.name then true else rest

  unfoldable pub cache_custom_resource :
      Operation → Resource A → List (Resource A) → List (Resource A)
  unfolding set_cr pop_cr
  cache_custom_resource added r c = set_cr r c
  cache_custom_resource modified r c = set_cr r c
  cache_custom_resource deleted r c = pop_cr r.name c
  cache_custom_resource reprocess r c = c
  cache_custom_resource (other s) r c = c

  -- A later object of a name replaces an earlier one; an object without metadata is left out.
  unfoldable pub cache_of : List (Option (Resource A)) → List (Resource A) → List (Resource A)
  unfolding set_cr
  cache_of [] c = c
  cache_of (none ∷ items) c = cache_of items c
  cache_of (some r ∷ items) c = cache_of items (set_cr r c)

-- `submitted`: the calls of _callback that were handed to the executor, the latest first.
pub record Watcher {ℓ} (A : Type ℓ) : Type ℓ where
  pub cr_cache : List (Resource A)
  pub resv_watcher : String
  pub submitted : List (Operation × Resource A)
  pub thread_run : Bool

-- What the cluster answers to a list request.
pub record ListResponse {ℓ} (A : Type ℓ) : Type ℓ where
  pub items : List (Option (Resource A))
  pub version : Option String

abbrev pub version_or : String → Option String → String
version_or v none = v
version_or v (some u) = u

-- An empty version is no version.
abbrev newer : String → Option String → String
newer v none = v
newer v (some u) = if str_eq u "" then v else u

module _ {ℓ} {A : Type ℓ} where
  unfoldable pub refresh_custom_resource_cache : ListResponse A → Watcher A → Watcher A
  unfolding cache_of
  refresh_custom_resource_cache resp w = record w { cr_cache = cache_of resp.items [] }

  unfoldable pub submit_all : Operation → List (Option (Resource A)) → Watcher A → Watcher A
  submit_all op [] w = w
  submit_all op (none ∷ items) w = submit_all op items w
  submit_all op (some r ∷ items) w =
      submit_all op items (record w { submitted = (op, r) ∷ w.submitted })

  -- A list without a version starts the watch from the beginning.
  unfoldable pub init_watcher : ListResponse A → Watcher A → Watcher A
  unfolding submit_all refresh_custom_resource_cache
  init_watcher resp w =
      submit_all added resp.items (record (refresh_custom_resource_cache resp w) {
        resv_watcher = version_or "" resp.version;
      })

  unfoldable pub handle_event : Operation → Resource A → Watcher A → Watcher A
  unfolding cache_custom_resource
  handle_event op r w = record w {
    resv_watcher = newer w.resv_watcher r.resource_version;
    cr_cache = cache_custom_resource op r w.cr_cache;
    submitted = (op, r) ∷ w.submitted;
  }

  -- The objects of a stream, until it ends, the watcher is stopped, or the version is too old.
  unfoldable pub watch_on_crs : List (WatchItem A) → Watcher A → Watcher A
  unfolding handle_event
  watch_on_crs [] w = w
  watch_on_crs (too_old (some version) ∷ items) w =
      if w.thread_run then record w { resv_watcher = version } else w
  watch_on_crs (too_old none ∷ items) w =
      let rest = watch_on_crs items w in if w.thread_run then rest else w
  watch_on_crs (no_metadata ∷ items) w =
      let rest = watch_on_crs items w in if w.thread_run then rest else w
  watch_on_crs (event op r ∷ items) w =
      let rest = watch_on_crs items (handle_event op r w) in if w.thread_run then rest else w

  -- The objects of the list, with the content of the cache.
  abbrev present : List (Resource A) → List (Option (Resource A))
  present [] = []
  present (r ∷ rs) = some r ∷ present rs

  unfoldable pub process_all_crs : Watcher A → Watcher A
  unfolding submit_all
  process_all_crs w = submit_all reprocess (present w.cr_cache) w
