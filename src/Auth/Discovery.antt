-- ===== src/Auth/Discovery.antt =====
-- auth/discovery.go: what the registered services say of their methods, and which methods are not checked.
-- The registry of descriptors is a parameter. A loop over the map of the services visits them in the
-- order of a list.
use microservice_kit.Prelude.{
  Bool, false, Option, none, some, List, [], ◌∷◌, ◌++◌, if◌then◌else◌, put,
}
use microservice_kit.Auth.Transport.{skip_listed}

-- the options that a proto file gives a method
pub record MethodOptions (Text : Type 0) : Type 0 where
  pub public : Bool
  pub permissions : List Text
  pub all_permissions : Bool

-- a descriptor: the service's options, and the methods by name, each with its options
pub record ServiceDescriptor (Text : Type 0) : Type 0 where
  pub service_options : Option (Bool × List Text)
  pub methods : Text → Option (Option (MethodOptions Text))

pub record MethodAuthInfo (Text : Type 0) : Type 0 where
  pub full_method : Text
  pub public : Bool
  pub permissions : List Text
  pub all_permissions : Bool

pub record DiscoveryResult (Text : Type 0) : Type 0 where
  pub public_methods : List Text
  pub method_auth_infos : List (Text × MethodAuthInfo Text)

module _ {Text : Type 0} (eq : Discrete Text) (full_name : Text → Text → Text)
    (find : Text → Option (ServiceDescriptor Text)) where
  -- `getServiceAuthOptions`
  unfoldable pub get_service_auth_options : Text → Bool × List Text
  get_service_auth_options service = elim (find service) [
    | none ↦ (false, [])
    | some d ↦ elim d.service_options [ none ↦ (false, []) | some o ↦ o ]
  ]

  -- `getMethodAuthOptions`
  unfoldable pub get_method_auth_options : Text → Text → Option (MethodOptions Text)
  get_method_auth_options service method = elim (find service) [
    | none ↦ none
    | some d ↦ elim (d.methods method) [ none ↦ none | some o ↦ o ]
  ]

  -- the options of the method come before those of its service
  unfoldable pub auth_info : Text → Text → MethodAuthInfo Text
  auth_info service method =
      let (public, permissions) = get_service_auth_options service in
      elim (get_method_auth_options service method) [
        | some o ↦ record {
          full_method = full_name service method;
          public = o.public;
          permissions = o.permissions;
          all_permissions = o.all_permissions;
        }
        | none ↦ record {
          full_method = full_name service method;
          public = public;
          permissions = permissions;
          all_permissions = false;
        }
      ]

  -- the body of the loop over the methods of a service
  abbrev pub add_method : MethodAuthInfo Text → DiscoveryResult Text → DiscoveryResult Text
  add_method info result = record {
    public_methods =
        if info.public
        then result.public_methods ++ (info.full_method ∷ [])
        else result.public_methods;
    method_auth_infos = put eq result.method_auth_infos info.full_method info;
  }

  -- that loop
  unfoldable pub discover_methods : Text → List Text → DiscoveryResult Text → DiscoveryResult Text
  discover_methods service [] result = result
  discover_methods service (method ∷ methods) result =
      discover_methods service methods (add_method (auth_info service method) result)

  -- the loop over the services
  unfoldable pub discover_services :
      List (Text × List Text) → DiscoveryResult Text → DiscoveryResult Text
  discover_services [] result = result
  discover_services ((service, methods) ∷ services) result =
      discover_services services (discover_methods service methods result)

  -- `DiscoverFromServer`
  unfoldable pub discover_from_server : List (Text × List Text) → DiscoveryResult Text
  discover_from_server services =
      discover_services services (record { public_methods = []; method_auth_infos = [] })

  -- `BuildSkipperFromDiscovery`, at what `grpc.Method` finds
  unfoldable pub build_skipper : DiscoveryResult Text → Option Text → Bool
  build_skipper result method = skip_listed eq result.public_methods method
