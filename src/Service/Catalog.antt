-- ===== src/Service/Catalog.antt =====
-- crates/wf-observer-cli/src/service/catalog.rs: the catalog built from the compiled manifests, and
-- the checks that requests share. A value's serialised size is an argument, since `postcard`
-- computes it; `none` is its error.
use Prim.Native.String.{len}
use wf_observer.Common.{
  ℕ, String, Bool, true, false, not, ◌&&◌, ◌||◌, Option, none, some, List, [], ◌∷◌, ◌++◌, ltb, leb,
  if◌then◌else◌, ◌==◌, string_eq, nat_eq, any, Fallible, done, ensure, and_then,
}
use wf_observer.Provider
use wf_observer.Provider.{SnapshotDelivery}
use wf_observer.Wire.{
  Catalog, ProviderDescriptor, CapabilityDescriptor, RequestError, Resource, Result, ok, err,
}

unfoldable pub identifier : String → Bool
identifier value = not (value == "") && leb (len value) 256

abbrev pub limit : Resource → RequestError
limit resource = RequestError.limit_exceeded resource

abbrev pub invalid : String → RequestError
invalid message = RequestError.invalid_request message

unfoldable pub message_fits : Option ℕ → ℕ → Result (Unit {0})
message_fits none message_bytes = err (invalid "response encoding failed")
message_fits (some size) message_bytes =
    if ltb message_bytes size then err (limit Resource.message_bytes) else ok tt

-- cap.snapshots.is_some()
abbrev pub has_snapshots : Option SnapshotDelivery → Bool
has_snapshots none = false
has_snapshots (some d) = true

unfoldable pub declares : List CapabilityDescriptor → String → ℕ → Bool
declares capabilities topic version =
    any (λ c. c.topic == topic && c.schema_version == version) capabilities

unfoldable pub add_capability :
    List CapabilityDescriptor → Provider.CapabilityDescriptor → Fallible (List CapabilityDescriptor)
unfolding identifier declares
add_capability capabilities cap =
    and_then
      (ensure
        (identifier cap.topic
          && ltb 0 cap.schema_version
          && (has_snapshots cap.snapshots || cap.events))
        "invalid capability")
      λ _.
        and_then
          (ensure (not (declares capabilities cap.topic cap.schema_version)) "duplicate capability")
          λ _. done (
            capabilities
            ++ (record {
              topic = cap.topic;
              schema_version = cap.schema_version;
              snapshots = has_snapshots cap.snapshots;
              events = cap.events;
            }
                ∷ []))

unfoldable pub add_capabilities :
    List CapabilityDescriptor
    → List Provider.CapabilityDescriptor
    → Fallible (List CapabilityDescriptor)
add_capabilities capabilities [] = done capabilities
add_capabilities capabilities (cap ∷ rest) =
    and_then (add_capability capabilities cap) (λ added. add_capabilities added rest)

unfoldable pub add_provider :
    List ProviderDescriptor → Provider.ProviderManifest → Fallible (List ProviderDescriptor)
unfolding identifier
add_provider providers manifest =
    and_then
      (ensure (identifier manifest.id && identifier manifest.game.id) "invalid provider identity")
      λ _.
        and_then (ensure (not (any (λ p. p.id == manifest.id) providers)) "duplicate provider ID")
          λ _. and_then (add_capabilities [] manifest.capabilities) λ capabilities. done (
            providers
            ++ (record {
              id = manifest.id;
              name = manifest.name;
              version = manifest.version;
              game = record { id = manifest.game.id; name = manifest.game.name };
              capabilities = capabilities;
            }
                ∷ []))

unfoldable pub add_providers :
    List ProviderDescriptor → List Provider.ProviderManifest → Fallible (List ProviderDescriptor)
add_providers providers [] = done providers
add_providers providers (manifest ∷ rest) =
    and_then (add_provider providers manifest) (λ added. add_providers added rest)

unfoldable pub catalog : List Provider.ProviderManifest → Fallible Catalog
catalog manifests =
    and_then (add_providers [] manifests) (λ providers. done (record { providers = providers }))
