-- ===== src/CrHandler/Patches.antt =====
-- The bodies of the requests that create and update resources (k8scrhandler.py), with the
-- reference to an owner.
use ewm_cloud_robotics.Prelude.{String, Option, none, some, List, [], Result, ok, err, key_error}
use ewm_cloud_robotics.CrHandler.Owners.{OwnerReference, Owner, set_controller_reference}

abbrev pub Labels : Type 0
Labels = List (String × String)

-- `owner_references`: the key ownerReferences, `none` if it is missing.
pub record Metadata : Type 0 where
  pub labels : Option Labels
  pub owner_references : Option (List OwnerReference)

-- A body; `metadata` is `none` if the key is missing. The spec is a parameter, `A`.
pub record Body {ℓ} (A : Type ℓ) : Type ℓ where
  pub name : Option String
  pub namespace : Option String
  pub spec : A
  pub metadata : Option Metadata

abbrev refs_or_empty : Option (List OwnerReference) → List OwnerReference
refs_or_empty none = []
refs_or_empty (some refs) = refs

abbrev labels_only : Option Labels → Option Metadata
labels_only none = none
labels_only (some l) = some (record { labels = some l; owner_references = none })

module _ {ℓ} {A : Type ℓ} where
  -- set_controller_reference on a body: the metadata are read by their key.
  controlled : Body A → Owner → Option Metadata → Result (Body A)
  unfolding set_controller_reference
  controlled b o none = err key_error
  controlled b o (some m) = ok (record b {
    metadata = some (record m {
      owner_references = some (set_controller_reference (refs_or_empty m.owner_references) o);
    });
  })

  with_owner : Option Owner → Body A → Result (Body A)
  unfolding controlled
  with_owner none b = ok b
  with_owner (some o) b = controlled b o b.metadata

  unfoldable pub update_cr_spec : A → Option Labels → Option Owner → Result (Body A)
  unfolding with_owner
  update_cr_spec spec labels owner =
      with_owner owner
        (record { name = none; namespace = none; spec = spec; metadata = labels_only labels })

  -- `raw` are the metadata of the template.
  unfoldable pub create_cr :
      String → String → Metadata → Labels → A → Option Owner → Result (Body A)
  unfolding with_owner
  create_cr namespace name raw labels spec owner = with_owner owner (record {
    name = some name;
    namespace = some namespace;
    spec = spec;
    metadata = some (record raw { labels = some labels });
  })
