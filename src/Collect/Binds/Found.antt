-- ===== src/Collect/Binds/Found.antt =====
-- `BindSources` of app/collect/host/binds.go: which sources are examined.
use deploy_witness_cli.Prelude.{
  ◌≡◌, ap, ◌∙◌, inl, inr, true, ◌||◌, some, List, [], ◌∷◌, map, arith, Bool-cases, All, Text, codes,
  text_eq, text_eq_refl, text_eq_sound, has_prefix, All-map,
}
use deploy_witness_cli.Model.Plan.{ManifestService, VolumeMount, mount_bind}
use deploy_witness_cli.Model.Host.{Filesystem}
use deploy_witness_cli.Collect.Binds.{
  Files, blank, described, follow_link, stat_path, has_text, next_sources, mount_sources,
  service_sources, insert_text, sort_texts, examine, collected_sources,
}
use deploy_witness_cli.Witness.Binds.{find_source}

-- The mount is a bind mount of an absolute path.
abbrev pub IsAsked : VolumeMount → Type 0
IsAsked m = (text_eq m.kind mount_bind ≡ true) × (has_prefix m.source (codes "/") ≡ true)

next_sources-keeps :
    (m : VolumeMount) (paths : List Text) (p : Text)
    → has_text paths p ≡ true
    → has_text (next_sources m paths) p ≡ true
unfolding next_sources
next_sources-keeps m paths p h = ground (arith, h)

next_sources-has :
    (m : VolumeMount) (paths : List Text)
    → IsAsked m
    → has_text (next_sources m paths) m.source ≡ true
unfolding next_sources
next_sources-has m paths a = ground (arith, a.0, a.1, text_eq_refl m.source)

mount_sources-keeps :
    (ms : List VolumeMount) (paths : List Text) (p : Text)
    → has_text paths p ≡ true
    → has_text (mount_sources ms paths) p ≡ true
unfolding mount_sources
mount_sources-keeps [] paths p h = h
mount_sources-keeps (m ∷ ms) paths p h =
    mount_sources-keeps ms (next_sources m paths) p (next_sources-keeps m paths p h)

mount_sources-All :
    (ms : List VolumeMount) (paths : List Text)
    → All (λ m. IsAsked m → has_text (mount_sources ms paths) m.source ≡ true) ms
unfolding mount_sources
mount_sources-All [] paths = tt
mount_sources-All (m ∷ ms) paths = (
  λ a. mount_sources-keeps ms (next_sources m paths) m.source (next_sources-has m paths a),
  mount_sources-All ms (next_sources m paths),
)

service_sources-keeps :
    (services : List ManifestService) (paths : List Text) (p : Text)
    → has_text paths p ≡ true
    → has_text (service_sources services paths) p ≡ true
unfolding service_sources
service_sources-keeps [] paths p h = h
service_sources-keeps (svc ∷ services) paths p h =
    service_sources-keeps services (mount_sources svc.volumes paths) p
      (mount_sources-keeps svc.volumes paths p h)

-- Every source of a bind mount is among the paths.
abbrev pub AllAsked : (Text → Type 0) → List ManifestService → Type 0
AllAsked P services = All (λ svc. All (λ m. IsAsked m → P m.source) svc.volumes) services

service_sources-All :
    (services : List ManifestService) (paths : List Text)
    → AllAsked (λ p. has_text (service_sources services paths) p ≡ true) services
unfolding service_sources
service_sources-All [] paths = tt
service_sources-All (svc ∷ services) paths = (
  All-map _ _ svc.volumes
      (λ m h a. service_sources-keeps services (mount_sources svc.volumes paths) m.source (h a))
      (mount_sources-All svc.volumes paths),
  service_sources-All services (mount_sources svc.volumes paths),
)

insert_text-has :
    (x p : Text) (ys : List Text)
    → (text_eq x p || has_text ys p) ≡ true
    → has_text (insert_text x ys) p ≡ true
unfolding insert_text
insert_text-has x p [] h = h
insert_text-has x p (y ∷ ys) h = ground (arith, h, insert_text-has x p ys)

sort_texts-has :
    (p : Text) (xs : List Text) → has_text xs p ≡ true → has_text (sort_texts xs) p ≡ true
unfolding sort_texts
sort_texts-has p [] h = h
sort_texts-has p (x ∷ xs) h =
    insert_text-has x p (sort_texts xs) (ground (arith, h, sort_texts-has p xs))

-- What is examined is what was asked for.
examine_path :
    (files : Files) (filesystems : List Filesystem) (path : Text)
    → (examine files filesystems path).path ≡ path
unfolding examine stat_path blank described follow_link
examine_path files filesystems path = ground arith

find_source-map :
    (files : Files) (filesystems : List Filesystem) (p : Text) (paths : List Text)
    → has_text paths p ≡ true
    → find_source (map (examine files filesystems) paths) p ≡ some (examine files filesystems p)
unfolding find_source
find_source-map files filesystems p [] h = cc h
find_source-map files filesystems p (q ∷ paths) h =
    let same : text_eq (examine files filesystems q).path p ≡ text_eq q p =
      ap (λ z. text_eq z p) (examine_path files filesystems q) in
    elim (Bool-cases (text_eq q p)) [
      | inl e ↦ rw (same ∙ e) (ap (λ z. some (examine files filesystems z)) (text_eq_sound q p e))
      | inr e ↦ rw (same ∙ e) (find_source-map files filesystems p paths (rw e at h))
    ]

-- Of every bind mount of an absolute path the collector has examined the source.
pub collected_sources-All :
    (files : Files) (filesystems : List Filesystem) (services : List ManifestService)
    → AllAsked
        (λ p.
          find_source (collected_sources files filesystems services) p
          ≡ some (examine files filesystems p))
        services
unfolding collected_sources
collected_sources-All files filesystems services =
    All-map _ _ services
      (λ svc a.
        All-map _ _ svc.volumes
          (λ m h k.
            find_source-map files filesystems m.source (sort_texts (service_sources services []))
              (sort_texts-has m.source (service_sources services []) (h k)))
          a)
      (service_sources-All services [])
