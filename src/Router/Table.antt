-- ===== src/Router/Table.antt =====
-- The table of routes as a map.
use easytask.Base.{
  ◌≡◌, ◌≢◌, refl, sym, ap, ◌∙◌, inl, inr, false, Bool-cases, List, [], ◌∷◌, Option, some, Text,
  text_eq, text_eq_iff, text_eq_refl, ok, Error, ok-injective, Option-cases,
}
use easytask.Router.{
  lookup, insert, HandlerReflect, HttpRoute, HttpRouter, Methods, register, methods_of,
  known_methods, stored_route,
}

module _ {ℓ} {A : Type ℓ} where
  lookup-insert : (key : Text) (v : A) (m : List (Text × A)) → lookup key (insert key v m) ≡ some v
  unfolding lookup insert
  lookup-insert key v [] = rw (text_eq_refl key) refl
  lookup-insert key v ((k, u) ∷ rest) = elim (Bool-cases (text_eq k key)) [
    | inl hit ↦ rw (hit, text_eq_refl key) refl
    | inr miss ↦ rw (miss, miss, lookup-insert key v rest) refl
  ]

  lookup-insert_other :
      (key other : Text) (v : A) (m : List (Text × A))
      → text_eq key other ≡ false
      → lookup other (insert key v m) ≡ lookup other m
  unfolding lookup insert
  lookup-insert_other key other v [] h = rw h refl
  lookup-insert_other key other v ((k, u) ∷ rest) h = elim (Bool-cases (text_eq k key)) [
    | inl hit ↦ (let same = (text_eq_iff k key).0 hit in rw (hit, same, h) refl)
    | inr miss ↦ rw (miss, lookup-insert_other key other v rest h) refl
  ]

text_ne : (s t : Text) → s ≢ t → text_eq s t ≡ false
text_ne s t h = elim (Bool-cases (text_eq s t)) [
  | inl hit ↦ absurd (h ((text_eq_iff s t).0 hit))
  | inr miss ↦ miss
]

module _ {W : Type 0} where
  -- The handler for a method of a path.
  abbrev pub handler_at : Text → Text → HttpRouter W → Option (HandlerReflect W)
  handler_at path method r = lookup method (methods_of path r.route_map)

  stored_route-same :
      (route : HttpRoute W) (r : HttpRouter W)
      → handler_at route.path route.method (stored_route route r) ≡ some route.handler
  stored_route-same route r =
      let methods = insert route.method route.handler (methods_of route.path r.route_map) in
      ap (λ o. lookup route.method (known_methods o)) (lookup-insert route.path methods r.route_map)
      ∙ lookup-insert route.method route.handler (methods_of route.path r.route_map)

  stored_route-other :
      (route : HttpRoute W) (r : HttpRouter W) (path method : Text)
      → (path ≡ route.path → method ≢ route.method)
      → handler_at path method (stored_route route r) ≡ handler_at path method r
  stored_route-other route r path method h = elim (Bool-cases (text_eq route.path path)) [
    | inr miss ↦
        ap (λ o. lookup method (known_methods o))
          (lookup-insert_other route.path path (methods route r) r.route_map miss)
    | inl hit ↦
        let same = (text_eq_iff route.path path).0 hit in
        rw (← same) (
          ap (λ o. lookup method (known_methods o))
            (lookup-insert route.path (methods route r) r.route_map)
          ∙ lookup-insert_other route.method method route.handler
              (methods_of route.path r.route_map)
              (text_ne route.method method (λ e. h (sym same) (sym e))))
  ]
    where
      methods : HttpRoute W → HttpRouter W → Methods W
      methods route r = insert route.method route.handler (methods_of route.path r.route_map)

  -- Register succeeds only before the server is started. Then the route's method and path lead to its
  -- handler, and every other method or path to what it led to before.
  pub register-handler_at :
      (check : HttpRoute W → Option Error) (route : HttpRoute W) (r r' : HttpRouter W)
      → register check route r ≡ ok r'
      → (r.is_booted ≡ false)
        × (handler_at route.path route.method r' ≡ some route.handler)
        × ((path method : Text)
            → (path ≡ route.path → method ≢ route.method)
            → handler_at path method r' ≡ handler_at path method r)
  unfolding register
  register-handler_at check route r r' e = elim (Bool-cases r.is_booted) [
    | inl on ↦ cc (rw on at e)
    | inr off ↦ elim (Option-cases (check route)) [
      | inr (x, bad) ↦ cc (rw (off, bad) at e)
      | inl fine ↦
          let same : stored_route route r ≡ r' = ok-injective (rw (off, fine) at e) in
          (
            off,
            rw (← same) (stored_route-same route r),
            (λ path method h. rw (← same) (stored_route-other route r path method h)),
          )
    ]
  ]
