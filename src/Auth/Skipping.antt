-- ===== src/Auth/Skipping.antt =====
-- auth/discovery.go: which methods the skipper of the discovery skips.
use mathlib.Core.List.{Memᴰ}
use mathlib.Core.List.Memᴰ
use mathlib.Core.List.Memᴰ.{head, tail}
use microservice_kit.Prelude.{
  ◌≡◌, ◌≢◌, refl, sym, ap, ◌∙◌, subst, ◌↔◌, ◌⊎◌, inl, inr, Bool, true, false, Option, none, some,
  Option-cases, List, [], ◌∷◌, ◌++◌, arith, if◌then◌else◌,
}
use microservice_kit.Auth.Authorizers.{Mem_of_occurs, occurs-Mem}
use microservice_kit.Auth.Transport.{skip_listed}
use microservice_kit.Auth.Discovery.{
  MethodOptions, ServiceDescriptor, get_service_auth_options, get_method_auth_options,
  DiscoveryResult, auth_info, add_method, discover_methods, discover_services, discover_from_server,
  build_skipper,
}

module _ {Text : Type 0} where
  added_cases :
      (b : Bool) (name full : Text) (xs : List Text)
      → Memᴰ name (if b then xs ++ (full ∷ []) else xs)
      → Memᴰ name xs ⊎ ((b ≡ true) × (full ≡ name))
  added_cases false name full xs h = inl h
  added_cases true name full xs h = elim (Memᴰ.append_cases xs h) [
    | inl old ↦ inl old
    | inr (head same) ↦ inr (refl, sym same)
    | inr (tail rest) ↦ elim rest [ ]
  ]

  added_old :
      (b : Bool) (name full : Text) (xs : List Text)
      → Memᴰ name xs
      → Memᴰ name (if b then xs ++ (full ∷ []) else xs)
  added_old false name full xs h = h
  added_old true name full xs h = Memᴰ.append_left (full ∷ []) h

  added_new :
      (b : Bool) (name full : Text) (xs : List Text)
      → b ≡ true
      → full ≡ name
      → Memᴰ name (if b then xs ++ (full ∷ []) else xs)
  added_new false name full xs b e = absurd (ground arith)
  added_new true name full xs b e = Memᴰ.append_right xs (head (sym e))

-- the options of a method declare it public, or it has none and those of its service do
pub data DeclaresPublic {Text : Type 0} (d : ServiceDescriptor Text) (method : Text) : Type 0 where
  by_method :
      {o : MethodOptions Text}
      → d.methods method ≡ some (some o)
      → o.public ≡ true
      → DeclaresPublic d method
  by_service :
      {permissions : List Text}
      → ((o : MethodOptions Text) → d.methods method ≢ some (some o))
      → d.service_options ≡ some (true, permissions)
      → DeclaresPublic d method

module _ {Text : Type 0} (eq : Discrete Text) (full_name : Text → Text → Text)
    (find : Text → Option (ServiceDescriptor Text)) where
  full_method-full_name :
      (service method : Text)
      → (auth_info eq full_name find service method).full_method ≡ full_name service method
  unfolding auth_info
  full_method-full_name service method = ground arith

  public_of_declared :
      (service method : Text) (d : ServiceDescriptor Text)
      → find service ≡ some d
      → DeclaresPublic d method
      → (auth_info eq full_name find service method).public ≡ true
  unfolding auth_info get_service_auth_options get_method_auth_options
  public_of_declared service method d e (by_method m p) = ground arith
  public_of_declared service method d e (by_service none_ p) =
      elim (Option-cases (d.methods method)) [
        | inl absent ↦ ground arith
        | inr (none, bare) ↦ ground arith
        | inr (some o, has) ↦ absurd (none_ o has)
      ]

  declared_of_public :
      (service method : Text)
      → (auth_info eq full_name find service method).public ≡ true
      → (d : ServiceDescriptor Text) × (find service ≡ some d) × DeclaresPublic d method
  unfolding auth_info get_service_auth_options get_method_auth_options
  declared_of_public service method h = elim (Option-cases (find service)) [
    | inl absent ↦ absurd (ground arith)
    | inr (d, e) ↦ elim (Option-cases (d.methods method)) [
      | inl none_ ↦ elim (Option-cases d.service_options) [
        | inl absent ↦ absurd (ground arith)
        | inr ((b, ps), has) ↦
            (d, e, by_service {permissions = ps} (λ o f. absurd (ground arith)) (ground arith))
      ]
      | inr (none, bare) ↦ elim (Option-cases d.service_options) [
        | inl absent ↦ absurd (ground arith)
        | inr ((b, ps), has) ↦
            (d, e, by_service {permissions = ps} (λ o f. absurd (ground arith)) (ground arith))
      ]
      | inr (some o, has) ↦ (d, e, by_method has (ground arith))
    ]
  ]

  -- a method of a registered service that its options declare public
  pub record IsPublic (services : List (Text × List Text)) (name : Text) : Type 0 where
    pub service : Text
    pub method : Text
    pub methods : List Text
    pub registered : Memᴰ (service, methods) services
    pub listed : Memᴰ method methods
    pub named : full_name service method ≡ name
    pub descriptor : ServiceDescriptor Text
    pub described : find service ≡ some descriptor
    pub public : DeclaresPublic descriptor method

  -- what one service adds
  record Listed (service : Text) (methods : List Text) (name : Text) : Type 0 where
    method : Text
    listed : Memᴰ method methods
    named : full_name service method ≡ name
    public : (auth_info eq full_name find service method).public ≡ true

  Listed-tail :
      (service m : Text) (ms : List Text) (name : Text)
      → Listed service ms name
      → Listed service (m ∷ ms) name
  Listed-tail service m ms name l = record {
    method = l.method;
    listed = tail l.listed;
    named = l.named;
    public = l.public;
  }

  discover_methods_cases :
      (name service : Text) (methods : List Text) (result : DiscoveryResult Text)
      → Memᴰ name (discover_methods eq full_name find service methods result).public_methods
      → Memᴰ name result.public_methods ⊎ Listed service methods name
  unfolding discover_methods
  discover_methods_cases name service [] result h = inl h
  discover_methods_cases name service (m ∷ ms) result h =
      let info = auth_info eq full_name find service m in
      elim (discover_methods_cases name service ms (add_method eq full_name find info result) h) [
        | inr l ↦ inr (Listed-tail service m ms name l)
        | inl found ↦
            elim (added_cases info.public name info.full_method result.public_methods found) [
              | inl old ↦ inl old
              | inr (public, same) ↦ inr (record {
                method = m;
                listed = head refl;
                named = sym (full_method-full_name service m) ∙ same;
                public = public;
              })
            ]
      ]

  discover_methods-Mem_old :
      (name service : Text) (methods : List Text) (result : DiscoveryResult Text)
      → Memᴰ name result.public_methods
      → Memᴰ name (discover_methods eq full_name find service methods result).public_methods
  unfolding discover_methods
  discover_methods-Mem_old name service [] result h = h
  discover_methods-Mem_old name service (m ∷ ms) result h =
      let info = auth_info eq full_name find service m in
      discover_methods-Mem_old name service ms (add_method eq full_name find info result)
        (added_old info.public name info.full_method result.public_methods h)

  discover_methods-Mem_new :
      (name service : Text) (methods : List Text) (result : DiscoveryResult Text) (m : Text)
      → Memᴰ m methods
      → full_name service m ≡ name
      → (auth_info eq full_name find service m).public ≡ true
      → Memᴰ name (discover_methods eq full_name find service methods result).public_methods
  unfolding discover_methods
  discover_methods-Mem_new name service [] result m h e p = elim h [ ]
  discover_methods-Mem_new name service (m' ∷ ms) result m h e p =
      let info = auth_info eq full_name find service m' in
      elim h [
        | head same ↦
            discover_methods-Mem_old name service ms (add_method eq full_name find info result) (
              added_new info.public name info.full_method result.public_methods
                (ap (λ x. (auth_info eq full_name find service x).public) (sym same) ∙ p)
                (full_method-full_name service m' ∙ ap (full_name service) (sym same) ∙ e))
        | tail rest ↦
            discover_methods-Mem_new name service ms (add_method eq full_name find info result) m
              rest e p
      ]

  discover_services_cases :
      (name : Text) (services : List (Text × List Text)) (result : DiscoveryResult Text)
      → Memᴰ name (discover_services eq full_name find services result).public_methods
      → Memᴰ name result.public_methods ⊎ IsPublic services name
  unfolding discover_services
  discover_services_cases name [] result h = inl h
  discover_services_cases name ((s, ms) ∷ services) result h =
      elim (discover_services_cases name services (discover_methods eq full_name find s ms result)
        h) [
          | inr p ↦ inr (record {
            service = p.service;
            method = p.method;
            methods = p.methods;
            registered = tail p.registered;
            listed = p.listed;
            named = p.named;
            descriptor = p.descriptor;
            described = p.described;
            public = p.public;
          })
          | inl found ↦ elim (discover_methods_cases name s ms result found) [
            | inl old ↦ inl old
            | inr l ↦
                let (d, described, public) = declared_of_public s l.method l.public in
                inr (record {
                  service = s;
                  method = l.method;
                  methods = ms;
                  registered = head refl;
                  listed = l.listed;
                  named = l.named;
                  descriptor = d;
                  described = described;
                  public = public;
                })
          ]
        ]

  discover_services-Mem_old :
      (name : Text) (services : List (Text × List Text)) (result : DiscoveryResult Text)
      → Memᴰ name result.public_methods
      → Memᴰ name (discover_services eq full_name find services result).public_methods
  unfolding discover_services
  discover_services-Mem_old name [] result h = h
  discover_services-Mem_old name ((s, ms) ∷ services) result h =
      discover_services-Mem_old name services (discover_methods eq full_name find s ms result)
        (discover_methods-Mem_old name s ms result h)

  discover_services-Mem_new :
      (name : Text) (services : List (Text × List Text)) (result : DiscoveryResult Text) (s : Text)
      (ms : List Text) (m : Text)
      → Memᴰ (s, ms) services
      → Memᴰ m ms
      → full_name s m ≡ name
      → (auth_info eq full_name find s m).public ≡ true
      → Memᴰ name (discover_services eq full_name find services result).public_methods
  unfolding discover_services
  discover_services-Mem_new name [] result s ms m h l e p = elim h [ ]
  discover_services-Mem_new name ((s', ms') ∷ services) result s ms m (head same) l e p =
      discover_services-Mem_old name services (discover_methods eq full_name find s' ms' result) (
        discover_methods-Mem_new name s' ms' result m (subst (λ x. Memᴰ m x) (ap (λ x. x.1) same) l)
          (ap (λ x. full_name x.0 m) (sym same) ∙ e)
          (ap (λ x. (auth_info eq full_name find x.0 m).public) (sym same) ∙ p))
  discover_services-Mem_new name ((s', ms') ∷ services) result s ms m (tail h) l e p =
      discover_services-Mem_new name services (discover_methods eq full_name find s' ms' result) s
        ms m h l e p

  -- The skipper that is built from what was discovered skips a method exactly where a registered service
  -- has it and declares it public, by the method's own options or else by the service's.
  pub build_skipper-IsPublic :
      (services : List (Text × List Text)) (name : Text)
      → (build_skipper eq full_name find (discover_from_server eq full_name find services) none
          ≡ false)
        × ((build_skipper eq full_name find
                (discover_from_server eq full_name find services)
                (some name)
              ≡ true)
            ↔ IsPublic services name)
  unfolding build_skipper skip_listed discover_from_server
  build_skipper-IsPublic services name =
      let nothing : DiscoveryResult Text = record { public_methods = []; method_auth_infos = [] } in
      let found = (discover_services eq full_name find services nothing).public_methods in
      (
        refl,
        (
          λ h.
              elim (discover_services_cases name services nothing (Mem_of_occurs eq name found h)) [
                | inl m ↦ elim m [ ]
                | inr p ↦ p
              ],
          λ p. occurs-Mem eq name found (
              discover_services-Mem_new name services nothing p.service p.methods p.method
                p.registered p.listed p.named
                (public_of_declared p.service p.method p.descriptor p.described p.public)),
        ),
      )
