-- ===== src/Witness/Rollback/Backed.antt =====
-- `Rollback` of app/witness/changes.go: when an item is called available.
use deploy_witness_cli.Prelude.{
  ◌≡◌, refl, sym, ap, ◌∙◌, ◌↔◌, inl, inr, true, false, ◌&&◌, Option, none, some, List, [], ◌∷◌,
  arith, Bool-cases, Option-cases, All, All-append, Text, text_eq, is_empty, Exists,
}
use deploy_witness_cli.Model.Plan.{ManifestService}
use deploy_witness_cli.Model.Host.{Container, ContainerImage, BackupLocation, Proxy}
use deploy_witness_cli.Witness.Input.{Input}
use deploy_witness_cli.Witness.Ownership.{owner_of}
use deploy_witness_cli.Witness.ContainerNames.{is_own_kind}
use deploy_witness_cli.Witness.Rollback.{
  RollbackItem, Detail, not_running, returns_to, no_digest, nothing_kept, no_backup, recent_backup,
  stale_backups, proxy_copy, host_snapshot, new_rollback_item, running, digest_of, running_item,
  image_item, image_items, persistent_data, is_fresh, fresh_item, data_item, proxy_items, rollback,
}

-- A container of this deployment that has the service.
abbrev pub Serves : Input → Text → Container → Type 0
Serves i service c = (is_own_kind (owner_of i c).kind ≡ true) × (text_eq c.service service ≡ true)

-- What the observations and the plan say, by the detail of an item: no observed container of the
-- deployment has the service; one has it with an image whose digest is recorded; the plan keeps no data;
-- a location holds a file that is not stale. The other details rest on nothing.
abbrev pub Backed : Input → Detail → Type 0
Backed i (not_running service) =
    All (λ c. (is_own_kind (owner_of i c).kind && text_eq c.service service) ≡ false)
      i.caps.containers
Backed i (returns_to service image digest) =
    Exists (λ c. Serves i service c × (c.image ≡ image)) i.caps.containers
    × (is_empty digest ≡ false)
    × Exists (λ x. (text_eq x.reference image ≡ true) × (x.digest ≡ digest)) i.caps.images
Backed i nothing_kept = persistent_data i.manifest.services ≡ []
Backed i (recent_backup path at) =
    Exists (λ l. (l.path ≡ path) × (l.newest_file_at ≡ at) × (is_fresh l ≡ true))
      i.caps.backup_locations
Backed i (no_digest service image) = ⊥
Backed i (no_backup kept) = ⊥
Backed i stale_backups = ⊥
Backed i (proxy_copy kind root) = ⊥
Backed i host_snapshot = ⊥

abbrev pub IsBacked : Input → RollbackItem → Type 0
IsBacked i item = (item.available ≡ true) ↔ Backed i item.detail

running-none :
    (i : Input) (service : Text) (cs : List Container)
    → running i service cs ≡ none
    → All (λ c. (is_own_kind (owner_of i c).kind && text_eq c.service service) ≡ false) cs
unfolding running
running-none i service [] h = tt
running-none i service (c ∷ cs) h = elim (Option-cases (running i service cs)) [
  | inr (d, e) ↦ cc (rw (e, running) at h)
  | inl e ↦ elim (Bool-cases (is_own_kind (owner_of i c).kind && text_eq c.service service)) [
    | inl o ↦ cc (rw (e, o, running) at h)
    | inr o ↦ (o, running-none i service cs e)
  ]
]

running-Serves :
    (i : Input) (service : Text) (cs : List Container) (d : Container)
    → running i service cs ≡ some d
    → Exists (λ c. Serves i service c × (c.image ≡ d.image)) cs
unfolding running
running-Serves i service [] d h = cc h
running-Serves i service (c ∷ cs) d h = elim (Option-cases (running i service cs)) [
  | inr (e, f) ↦
      let s : e ≡ d = cc (rw (f, running) at h) in
      inr (running-Serves i service cs d (f ∙ ap some s))
  | inl e ↦ elim (Bool-cases (is_own_kind (owner_of i c).kind && text_eq c.service service)) [
    | inl o ↦
        let s : c ≡ d = cc (rw (e, o, running) at h) in
        inl ((ground (arith, o), ground (arith, o)), ap (λ z. z.image) s)
    | inr o ↦ cc (rw (e, o, running) at h)
  ]
]

digest_of-Exists :
    (image : Text) (cs : List ContainerImage) (d : Text)
    → digest_of image cs ≡ d
    → is_empty d ≡ false
    → Exists (λ x. (text_eq x.reference image ≡ true) × (x.digest ≡ d)) cs
unfolding digest_of
digest_of-Exists image [] d h n = cc (rw (sym h) at n)
digest_of-Exists image (c ∷ cs) d h n = elim (Bool-cases (is_empty (digest_of image cs))) [
  | inr e ↦ inr (digest_of-Exists image cs d (rw (e, digest_of) at h) n)
  | inl e ↦ elim (Bool-cases (text_eq c.reference image)) [
    | inl t ↦ inl (t, rw (e, t, digest_of) at h)
    | inr t ↦ let k : [] ≡ d = rw (e, t, digest_of) at h in cc (rw (sym k) at n)
  ]
]

image-IsBacked : (i : Input) (svc : ManifestService) → IsBacked i (image_item i svc)
unfolding image_item running_item new_rollback_item
image-IsBacked i svc = elim (Option-cases (running i svc.name i.caps.containers)) [
  | inl n ↦ rw (n, image_item) (λ h. running-none i svc.name i.caps.containers n, λ b. refl)
  | inr (d, s) ↦ elim (Bool-cases (is_empty (digest_of d.image i.caps.images))) [
    | inl e ↦ rw (s, image_item, e, running_item) (λ h. cc h, λ b. elim b [ ])
    | inr e ↦
        rw (s, image_item, e, running_item)
          (
            λ h. (
              running-Serves i svc.name i.caps.containers d s,
              e,
              digest_of-Exists d.image i.caps.images (digest_of d.image i.caps.images) refl e,
            ),
            λ b. refl,
          )
  ]
]

images-IsBacked :
    (i : Input) (services : List ManifestService) → All (IsBacked i) (image_items i services)
unfolding image_items
images-IsBacked i [] = tt
images-IsBacked i (svc ∷ services) = (image-IsBacked i svc, images-IsBacked i services)

-- What the item on the data owes to the locations that are searched.
fresh-Exists :
    (ls : List BackupLocation)
    → (fresh_item ls).available ≡ true
    → (path at : Text) × ((fresh_item ls).detail ≡ recent_backup path at)
      × Exists (λ l. (l.path ≡ path) × (l.newest_file_at ≡ at) × (is_fresh l ≡ true)) ls
unfolding fresh_item new_rollback_item
fresh-Exists [] h = cc h
fresh-Exists (l ∷ ls) h = elim (Bool-cases (is_fresh l)) [
  | inl e ↦ rw e (l.path, l.newest_file_at, refl, inl (refl, refl, refl))
  | inr e ↦ let (path, at, d, x) = fresh-Exists ls (rw e at h) in rw e (path, at, d, inr x)
]

Backed-fresh :
    (i : Input) (ls : List BackupLocation)
    → Backed i (fresh_item ls).detail
    → (fresh_item ls).available ≡ true
unfolding fresh_item new_rollback_item
Backed-fresh i [] b = elim b [ ]
Backed-fresh i (l ∷ ls) b = elim (Bool-cases (is_fresh l)) [
  | inl e ↦ rw e refl
  | inr e ↦ rw e (Backed-fresh i ls (rw e at b))
]

data-IsBacked :
    (i : Input) (kept : List Text) (ls : List BackupLocation)
    → persistent_data i.manifest.services ≡ kept
    → i.caps.backup_locations ≡ ls
    → IsBacked i (data_item kept ls)
unfolding data_item new_rollback_item
data-IsBacked i [] ls p q = (λ h. p, λ b. refl)
data-IsBacked i (k ∷ kept) [] p q = (λ h. cc h, λ b. elim b [ ])
data-IsBacked i (k ∷ kept) (l ∷ ls) p q = (
  λ h. let (path, at, d, x) = fresh-Exists (l ∷ ls) h in rw d (rw q x),
  λ b. Backed-fresh i (l ∷ ls) b,
)

proxy-IsBacked : (i : Input) (p : Option Proxy) → All (IsBacked i) (proxy_items p)
unfolding proxy_items new_rollback_item
proxy-IsBacked i none = tt
proxy-IsBacked i (some p) = ((λ h. cc h, λ b. elim b [ ]), tt)

-- A line of the rollback plan is called available exactly if what its text says holds of the
-- observations and the plan: for an image, that no container of the deployment that has the service is
-- among the observed ones, which is not asked to be a whole list, or that one has it and a digest that
-- is not empty is recorded for its image, the one that is named; for the data, that the plan keeps none,
-- or that the named backup location holds a file that is not stale. Every other line, that on a
-- snapshot and that on a copy of the proxy configuration among them, is not called available.
pub rollback-IsBacked : (i : Input) → All (IsBacked i) (rollback i)
unfolding rollback new_rollback_item
rollback-IsBacked i =
    All-append (IsBacked i) (image_items i i.manifest.services) _
      (images-IsBacked i i.manifest.services)
      (
        data-IsBacked i (persistent_data i.manifest.services) i.caps.backup_locations refl refl,
        All-append (IsBacked i) (proxy_items i.caps.proxy) _ (proxy-IsBacked i i.caps.proxy)
            ((λ h. cc h, λ b. elim b [ ]), tt),
      )
