-- ===== src/Service/Listing.antt =====
-- crates/wf-observer-cli/src/service/catalog.rs: what a catalog that was built lists.
use wf_observer.Common.{
  append_nil, append_assoc, All-last, ℕ, ◌<◌, ◌≡◌, refl, sym, ap, ◌∙◌, String, Bool, true, false,
  not, ◌&&◌, ◌||◌, List, [], ◌∷◌, ◌++◌, ◌==◌, string_eq, nat_eq, All, any, arith, Fallible, done,
  failed, ensure, and_then, ltb,
}
use wf_observer.Provider
use wf_observer.Wire.{Catalog, ProviderDescriptor, CapabilityDescriptor}
use wf_observer.Service.Catalog.{
  identifier, declares, has_snapshots, add_capability, add_capabilities, add_provider,
  add_providers, catalog,
}

-- What holds of the value, if there is one.
abbrev Yields {ℓ κ} : {A : Type ℓ} → (A → Type κ) → Fallible A → Type κ
Yields P (done a) = P a
Yields P (failed m) = Unit

Yields-then {ℓ κ μ} :
    {A : Type ℓ} {B : Type κ} (P : B → Type μ) (m : Fallible A) (f : A → Fallible B)
    → ((a : A) → m ≡ done a → Yields P (f a))
    → Yields P (and_then m f)
Yields-then P (done a) f h = h a refl
Yields-then P (failed m) f h = tt

Yields-value {ℓ κ} :
    {A : Type ℓ} (P : A → Type κ) (m : Fallible A) (a : A) → Yields P m → m ≡ done a → P a
Yields-value P m a h e = simp e at h

Yields-map {ℓ κ μ} :
    {A : Type ℓ} (P : A → Type κ) (Q : A → Type μ) (m : Fallible A)
    → ((a : A) → P a → Q a)
    → Yields P m
    → Yields Q m
Yields-map P Q (done a) f h = f a h
Yields-map P Q (failed m) f h = tt

false_of_negated : (b : Bool) → not b ≡ true → b ≡ false
false_of_negated b e = ground arith

and_left : (a b : Bool) → (a && b) ≡ true → a ≡ true
and_left a b e = ground arith

and_right : (a b : Bool) → (a && b) ≡ true → b ≡ true
and_right a b e = ground arith

ensured : (b : Bool) (m : String) (u : Unit {0}) → ensure b m ≡ done u → b ≡ true
ensured b m u e = ground arith

-- No topic is listed twice in one version.
abbrev pub Apart : List CapabilityDescriptor → Type 0
Apart [] = Unit
Apart (c ∷ cs) = (declares cs c.topic c.schema_version ≡ false) × Apart cs

-- A capability has an identifier, a version from 1, and something to publish.
pub record CapabilityIsUsable (c : CapabilityDescriptor) : Type 0 where
  pub named : identifier c.topic ≡ true
  pub versioned : 0 < c.schema_version
  pub publishes : (c.snapshots || c.events) ≡ true

pub record IsCapabilityListing (cs : List CapabilityDescriptor) : Type 0 where
  pub usable : All CapabilityIsUsable cs
  pub apart : Apart cs

declares-last :
    (cs : List CapabilityDescriptor) (c : CapabilityDescriptor) (topic : String) (version : ℕ)
    → declares cs topic version ≡ false
    → (c.topic == topic && c.schema_version == version) ≡ false
    → declares (cs ++ (c ∷ [])) topic version ≡ false
unfolding declares any
declares-last [] c topic version h n = ground arith
declares-last (x ∷ cs) c topic version h n = ground (arith, declares-last cs c topic version)

Apart-last :
    (cs : List CapabilityDescriptor) (c : CapabilityDescriptor)
    → Apart cs
    → declares cs c.topic c.schema_version ≡ false
    → Apart (cs ++ (c ∷ []))
unfolding declares any
Apart-last [] c h n = (refl, tt)
Apart-last (x ∷ cs) c h n = (
  declares-last cs c x.topic x.schema_version h.0 (
      ground (
        arith,
        string_eq.beq_iff x.topic c.topic,
        string_eq.beq_iff c.topic x.topic,
        nat_eq.beq_iff x.schema_version c.schema_version,
        nat_eq.beq_iff c.schema_version x.schema_version,
      )),
  Apart-last cs c h.1 (ground arith),
)

abbrev pub listed_as : Provider.CapabilityDescriptor → CapabilityDescriptor
listed_as offered = record {
  topic = offered.topic;
  schema_version = offered.schema_version;
  snapshots = has_snapshots offered.snapshots;
  events = offered.events;
}

abbrev usable_as : Provider.CapabilityDescriptor → Bool
usable_as offered =
    identifier offered.topic
    && ltb 0 offered.schema_version
    && (has_snapshots offered.snapshots || offered.events)

listed_as-CapabilityIsUsable :
    (offered : Provider.CapabilityDescriptor)
    → usable_as offered ≡ true
    → CapabilityIsUsable (listed_as offered)
listed_as-CapabilityIsUsable offered e = record {
  named = ground arith;
  versioned = ground arith;
  publishes = ground arith;
}

add_capability-IsCapabilityListing :
    (cs : List CapabilityDescriptor) (offered : Provider.CapabilityDescriptor)
    → IsCapabilityListing cs
    → Yields IsCapabilityListing (add_capability cs offered)
unfolding add_capability
add_capability-IsCapabilityListing cs offered h =
    Yields-then IsCapabilityListing (ensure (usable_as offered) "invalid capability") _ λ u e.
      Yields-then IsCapabilityListing
        (ensure (not (declares cs offered.topic offered.schema_version)) "duplicate capability")
        (λ _. done (cs ++ (listed_as offered ∷ [])))
        λ v f. record {
          usable = All-last CapabilityIsUsable cs (listed_as offered) h.usable (
              listed_as-CapabilityIsUsable offered
                (ensured (usable_as offered) "invalid capability" u e));
          apart =
              Apart-last cs (listed_as offered) h.apart
                (false_of_negated _ (ensured _ "duplicate capability" v f));
        }

add_capabilities-IsCapabilityListing :
    (cs : List CapabilityDescriptor) (offered : List Provider.CapabilityDescriptor)
    → IsCapabilityListing cs
    → Yields IsCapabilityListing (add_capabilities cs offered)
unfolding add_capabilities
add_capabilities-IsCapabilityListing cs [] h = h
add_capabilities-IsCapabilityListing cs (c ∷ rest) h =
    Yields-then IsCapabilityListing (add_capability cs c) (λ added. add_capabilities added rest)
      λ added e. add_capabilities-IsCapabilityListing added rest (
        Yields-value IsCapabilityListing (add_capability cs c) added
          (add_capability-IsCapabilityListing cs c h) e)

-- Whether a provider of this identity is listed.
abbrev pub lists : List ProviderDescriptor → String → Bool
lists providers id = any (λ p. p.id == id) providers

abbrev pub ProvidersApart : List ProviderDescriptor → Type 0
ProvidersApart [] = Unit
ProvidersApart (p ∷ ps) = (lists ps p.id ≡ false) × ProvidersApart ps

pub record ProviderIsUsable (p : ProviderDescriptor) : Type 0 where
  pub named : identifier p.id ≡ true
  pub game_named : identifier p.game.id ≡ true
  pub capabilities : IsCapabilityListing p.capabilities

-- A catalog lists each provider once, and each with usable capabilities listed once.
pub record IsProviderListing (ps : List ProviderDescriptor) : Type 0 where
  pub usable : All ProviderIsUsable ps
  pub apart : ProvidersApart ps

lists-last :
    (ps : List ProviderDescriptor) (p : ProviderDescriptor) (id : String)
    → lists ps id ≡ false
    → (p.id == id) ≡ false
    → lists (ps ++ (p ∷ [])) id ≡ false
unfolding any
lists-last [] p id h n = ground arith
lists-last (x ∷ ps) p id h n = ground (arith, lists-last ps p id)

ProvidersApart-last :
    (ps : List ProviderDescriptor) (p : ProviderDescriptor)
    → ProvidersApart ps
    → lists ps p.id ≡ false
    → ProvidersApart (ps ++ (p ∷ []))
unfolding any
ProvidersApart-last [] p h n = (refl, tt)
ProvidersApart-last (x ∷ ps) p h n = (
  lists-last ps p x.id h.0
      (ground (arith, string_eq.beq_iff x.id p.id, string_eq.beq_iff p.id x.id)),
  ProvidersApart-last ps p h.1 (ground arith),
)

abbrev pub listed_provider :
    Provider.ProviderManifest → List CapabilityDescriptor → ProviderDescriptor
listed_provider manifest capabilities = record {
  id = manifest.id;
  name = manifest.name;
  version = manifest.version;
  game = record { id = manifest.game.id; name = manifest.game.name };
  capabilities = capabilities;
}

add_provider-IsProviderListing :
    (ps : List ProviderDescriptor) (manifest : Provider.ProviderManifest)
    → IsProviderListing ps
    → Yields IsProviderListing (add_provider ps manifest)
unfolding add_provider
add_provider-IsProviderListing ps manifest h =
    Yields-then IsProviderListing
      (ensure (identifier manifest.id && identifier manifest.game.id) "invalid provider identity") _
      λ u e.
        Yields-then IsProviderListing (ensure (not (lists ps manifest.id)) "duplicate provider ID")
          _
          λ v f.
            Yields-then IsProviderListing (add_capabilities [] manifest.capabilities)
              (λ capabilities. done (ps ++ (listed_provider manifest capabilities ∷ [])))
              λ capabilities g.
                let named =
                  ensured (identifier manifest.id && identifier manifest.game.id)
                    "invalid provider identity" u e in
                record {
                  usable =
                      All-last ProviderIsUsable ps (listed_provider manifest capabilities) h.usable
                        (record {
                          named = and_left _ _ named;
                          game_named = and_right _ _ named;
                          capabilities =
                              Yields-value IsCapabilityListing
                                (add_capabilities [] manifest.capabilities) capabilities
                                (add_capabilities-IsCapabilityListing [] manifest.capabilities
                                  (record { usable = tt; apart = tt }))
                                g;
                        });
                  apart =
                      ProvidersApart-last ps (listed_provider manifest capabilities) h.apart
                        (false_of_negated _ (ensured _ "duplicate provider ID" v f));
                }

-- What is listed of the capabilities and providers that are offered, in their order.
abbrev pub all_listed : List Provider.CapabilityDescriptor → List CapabilityDescriptor
all_listed [] = []
all_listed (offered ∷ rest) = listed_as offered ∷ all_listed rest

abbrev pub all_providers : List Provider.ProviderManifest → List ProviderDescriptor
all_providers [] = []
all_providers (manifest ∷ rest) =
    listed_provider manifest (all_listed manifest.capabilities) ∷ all_providers rest

add_capability-listed_as :
    (cs : List CapabilityDescriptor) (offered : Provider.CapabilityDescriptor)
    → Yields (λ r. r ≡ cs ++ (listed_as offered ∷ [])) (add_capability cs offered)
unfolding add_capability
add_capability-listed_as cs offered =
    let P : List CapabilityDescriptor → Type 0 = λ r. r ≡ cs ++ (listed_as offered ∷ []) in
    Yields-then P (ensure (usable_as offered) "invalid capability") _ λ u e.
      Yields-then P
        (ensure (not (declares cs offered.topic offered.schema_version)) "duplicate capability")
        (λ _. done (cs ++ (listed_as offered ∷ []))) λ v f. refl

add_capabilities-all_listed :
    (cs : List CapabilityDescriptor) (offered : List Provider.CapabilityDescriptor)
    → Yields (λ r. r ≡ cs ++ all_listed offered) (add_capabilities cs offered)
unfolding add_capabilities
add_capabilities-all_listed cs [] = sym (append_nil cs)
add_capabilities-all_listed cs (c ∷ rest) =
    Yields-then (λ r. r ≡ cs ++ all_listed (c ∷ rest)) (add_capability cs c)
      (λ added. add_capabilities added rest)
      λ added e.
        let first : added ≡ cs ++ (listed_as c ∷ []) =
          Yields-value (λ r. r ≡ cs ++ (listed_as c ∷ [])) (add_capability cs c) added
            (add_capability-listed_as cs c) e in
        Yields-map (λ r. r ≡ added ++ all_listed rest) (λ r. r ≡ cs ++ all_listed (c ∷ rest))
          (add_capabilities added rest)
          (λ r g.
            g
            ∙ ap (λ l. l ++ all_listed rest) first
            ∙ append_assoc cs (listed_as c ∷ []) (all_listed rest))
          (add_capabilities-all_listed added rest)

add_provider-listed_provider :
    (ps : List ProviderDescriptor) (manifest : Provider.ProviderManifest)
    → Yields
        (λ r. r ≡ ps ++ (listed_provider manifest (all_listed manifest.capabilities) ∷ []))
        (add_provider ps manifest)
unfolding add_provider
add_provider-listed_provider ps manifest =
    let P : List ProviderDescriptor → Type 0 =
      λ r. r ≡ ps ++ (listed_provider manifest (all_listed manifest.capabilities) ∷ []) in
    Yields-then P
      (ensure (identifier manifest.id && identifier manifest.game.id) "invalid provider identity") _
      λ u e. Yields-then P (ensure (not (lists ps manifest.id)) "duplicate provider ID") _ λ v f.
        Yields-then P (add_capabilities [] manifest.capabilities)
          (λ capabilities. done (ps ++ (listed_provider manifest capabilities ∷ [])))
          λ capabilities g.
            ap (λ cs. ps ++ (listed_provider manifest cs ∷ []))
              (Yields-value (λ r. r ≡ all_listed manifest.capabilities)
                (add_capabilities [] manifest.capabilities) capabilities
                (add_capabilities-all_listed [] manifest.capabilities) g)

add_providers-all_providers :
    (ps : List ProviderDescriptor) (manifests : List Provider.ProviderManifest)
    → Yields (λ r. r ≡ ps ++ all_providers manifests) (add_providers ps manifests)
unfolding add_providers
add_providers-all_providers ps [] = sym (append_nil ps)
add_providers-all_providers ps (m ∷ rest) =
    let one = listed_provider m (all_listed m.capabilities) in
    Yields-then (λ r. r ≡ ps ++ all_providers (m ∷ rest)) (add_provider ps m)
      (λ added. add_providers added rest)
      λ added e.
        let first : added ≡ ps ++ (one ∷ []) =
          Yields-value (λ r. r ≡ ps ++ (one ∷ [])) (add_provider ps m) added
            (add_provider-listed_provider ps m) e in
        Yields-map (λ r. r ≡ added ++ all_providers rest) (λ r. r ≡ ps ++ all_providers (m ∷ rest))
          (add_providers added rest)
          (λ r g.
            g
            ∙ ap (λ l. l ++ all_providers rest) first
            ∙ append_assoc ps (one ∷ []) (all_providers rest))
          (add_providers-all_providers added rest)

add_providers-IsProviderListing :
    (ps : List ProviderDescriptor) (manifests : List Provider.ProviderManifest)
    → IsProviderListing ps
    → Yields IsProviderListing (add_providers ps manifests)
unfolding add_providers
add_providers-IsProviderListing ps [] h = h
add_providers-IsProviderListing ps (m ∷ rest) h =
    Yields-then IsProviderListing (add_provider ps m) (λ added. add_providers added rest)
      λ added e. add_providers-IsProviderListing added rest (
        Yields-value IsProviderListing (add_provider ps m) added
          (add_provider-IsProviderListing ps m h) e)

catalog-all_providers :
    (manifests : List Provider.ProviderManifest) (c : Catalog)
    → catalog manifests ≡ done c
    → c.providers ≡ all_providers manifests
unfolding catalog
catalog-all_providers manifests c e =
    let P : Catalog → Type 0 = λ c. c.providers ≡ all_providers manifests in
    Yields-value P (catalog manifests) c
      (Yields-then P (add_providers [] manifests)
        (λ providers. done (record { providers = providers }))
        λ providers f.
          Yields-value (λ r. r ≡ all_providers manifests) (add_providers [] manifests) providers
            (add_providers-all_providers [] manifests) f)
      e

-- A catalog that is built lists exactly the manifests' providers, each with all its capabilities, in
-- their order. None is there twice; each has valid identifiers and capabilities that have a valid
-- identifier, a version from 1 and something to publish, none of them twice.
pub catalog-IsProviderListing :
    (manifests : List Provider.ProviderManifest) (c : Catalog)
    → catalog manifests ≡ done c
    → (c.providers ≡ all_providers manifests) × IsProviderListing c.providers
unfolding catalog
catalog-IsProviderListing manifests c e = (
  catalog-all_providers manifests c e,
  Yields-value (λ c. IsProviderListing c.providers) (catalog manifests) c
      (Yields-then (λ c. IsProviderListing c.providers) (add_providers [] manifests)
        (λ providers. done (record { providers = providers }))
        λ providers f.
          Yields-value IsProviderListing (add_providers [] manifests) providers
            (add_providers-IsProviderListing [] manifests (record { usable = tt; apart = tt })) f)
      e,
)
