-- ===== src/Mysql/SrvRepo/Routes/Kept.antt =====
-- What the updates of AddSrvRoutes leave of a route or a service that is registered.
use easytask.Base.{
  ℕ, ◌≡◌, refl, inl, inr, Bool, true, false, ◌&&◌, ◌||◌, List, [], ◌∷◌, ◌++◌, ◌==◌, ◌==ℤ◌, map,
  select, any, all, Bool-cases, ℤ, arith, Text, text_eq, text_eq_refl, &&-split,
}
use easytask.Task.{TaskCallbackSrvRoute}
use easytask.Mysql.Column.{Column, Value, uint, bool}
use easytask.Mysql.Models.{TaskCallbackSrvModel, TaskCallbackSrvRouteModel}
use easytask.Mysql.Models.Columns.{Model, srv_model, route_model, set_route, set_srv}
use easytask.Mysql.Gorm.{Query, where_, unscoped_where, in_scope}
use easytask.Mysql.Gorm.Laws.{Created, updated, assign}
use easytask.Mysql.SrvRepo.Routes.{same_addr, route_renewal, new_route, new_srv}

or_true : (a b : Bool) → b ≡ true → (a || b) ≡ true
or_true true b h = refl
or_true false b h = h

or_left : (a b : Bool) → a ≡ true → (a || b) ≡ true
or_left true b h = refl
or_left false b h = cc

module _ {ℓ κ} {A : Type ℓ} {B : Type κ} where
  pub any-map :
      (p : A → Bool) (q : B → Bool) (f : A → B) (xs : List A)
      → ((x : A) → p x ≡ true → q (f x) ≡ true)
      → any p xs ≡ true
      → any q (map f xs) ≡ true
  any-map p q f [] keep h = cc
  any-map p q f (x ∷ xs) keep h = elim (Bool-cases (p x)) [
    | inl hit ↦ rw (keep x hit) refl
    | inr miss ↦ or_true (q (f x)) (any q (map f xs)) (any-map p q f xs keep (rw miss at h))
  ]

module _ {ℓ} {A : Type ℓ} (p : A → Bool) where
  pub any-append : (xs ys : List A) → any p xs ≡ true → any p (xs ++ ys) ≡ true
  any-append [] ys h = cc
  any-append (x ∷ xs) ys h = elim (Bool-cases (p x)) [
    | inl hit ↦ rw hit refl
    | inr miss ↦ rw (miss, any-append xs ys (rw miss at h)) refl
  ]

  pub any-append_last : (xs : List A) (y : A) → p y ≡ true → any p (xs ++ y ∷ []) ≡ true
  any-append_last [] y h = rw h refl
  any-append_last (x ∷ xs) y h = elim (Bool-cases (p x)) [
    | inl hit ↦ rw hit refl
    | inr miss ↦ rw (miss, any-append_last xs y h) refl
  ]

  -- The first of the selected, by another test that it passes.
  pub any-select :
      (q : A → Bool) (xs rest : List A) (y : A)
      → select q xs ≡ y ∷ rest
      → (q y ≡ true → p y ≡ true)
      → any p xs ≡ true
  any-select q [] rest y e h = cc
  any-select q (x ∷ xs) rest y e h = elim (Bool-cases (q x)) [
    | inl hit ↦
        (let same = head-eq (rw hit at e) in
          or_left (p x) (any p xs) (rw same (h (rw same at hit))))
    | inr miss ↦ or_true (p x) (any p xs) (any-select q xs rest y (rw miss at e) h)
  ]
    where
      head-eq : {x y : A} {xs ys : List A} → x ∷ xs ≡ y ∷ ys → x ≡ y
      head-eq e = cc

-- A live route of a service with the address of a route, and a live service of a name under a key.
abbrev pub live_route : ℕ → TaskCallbackSrvRoute → TaskCallbackSrvRouteModel → Bool
live_route key r = in_scope route_model (where_ (same_addr key r))

abbrev pub live_srv : ℕ → Text → TaskCallbackSrvModel → Bool
live_srv key name =
    in_scope srv_model (where_ ((λ m. m.id == key) ∷ (λ m. text_eq m.name name) ∷ []))

renewed :
    TaskCallbackSrvRoute
    → TaskCallbackSrvRouteModel
    → ℤ
    → TaskCallbackSrvRouteModel
    → TaskCallbackSrvRouteModel
renewed r found at m =
    route_model.with_base (assign route_model (route_renewal r found) m)
      (record (route_model.base (assign route_model (route_renewal r found) m)) { updated_at = at })

-- A renewal makes the row live and leaves its address alone.
renewed-live_route :
    (key : ℕ) (r other : TaskCallbackSrvRoute) (found m : TaskCallbackSrvRouteModel) (at : ℤ)
    → all (λ c. c m) (same_addr key r) ≡ true
    → live_route key r (renewed other found at m) ≡ true
unfolding renewed assign set_route
renewed-live_route key r other found m at h =
    elim (Bool-cases (other.callback_timeout_sec ==ℤ found.callback_timeout_sec)) [
      | inl same ↦ rw same h
      | inr differ ↦ rw differ h
    ]

-- The query for one row by its key, as `Updates` uses it.
abbrev pub by_key : {M : Type 0} → Model M → ℕ → Query M
by_key model key = unscoped_where ((λ m. (model.base m).id == key) ∷ [])

pub updated-live_route :
    (key : ℕ) (r other : TaskCallbackSrvRoute) (found m : TaskCallbackSrvRouteModel)
    (q : Query TaskCallbackSrvRouteModel) (at : ℤ)
    → live_route key r m ≡ true
    → live_route key r (updated route_model q (route_renewal other found) at m) ≡ true
unfolding renewed
updated-live_route key r other found m q at h = elim (Bool-cases (in_scope route_model q m)) [
  | inl hit ↦ rw hit (renewed-live_route key r other found m at (&&-split _ _ h).1)
  | inr miss ↦ rw miss h
]

pub updated-revived_route :
    (key : ℕ) (r : TaskCallbackSrvRoute) (found m : TaskCallbackSrvRouteModel) (at : ℤ)
    → (m.id == found.id && all (λ c. c m) (same_addr key r)) ≡ true
    → live_route key r
        (updated route_model (by_key route_model found.id) (route_renewal r found) at m)
      ≡ true
unfolding renewed
updated-revived_route key r found m at h =
    let (here, same) = &&-split (m.id == found.id) (all (λ c. c m) (same_addr key r)) h in
    rw here (renewed-live_route key r r found m at same)

pub Created-live_route :
    (key : ℕ) (r : TaskCallbackSrvRoute) (rows : List TaskCallbackSrvRouteModel)
    (row : TaskCallbackSrvRouteModel)
    → Created route_model rows (new_route key r) row
    → live_route key r row ≡ true
Created-live_route key r rows row c =
    rw c.stored (ground (arith, text_eq_refl r.host, text_eq_refl r.scheme))

-- The same for services, whose update is of one column.
abbrev pub Keeps : List (Column × Value) → Type 0
Keeps xs =
    (key : ℕ) (name : Text) (q : Query TaskCallbackSrvModel) (at : ℤ) (m : TaskCallbackSrvModel)
    → live_srv key name m ≡ true
    → live_srv key name (updated srv_model q xs at m) ≡ true

pub deleted_at-Keeps : Keeps ((Column.deleted_at, uint 0) ∷ [])
unfolding assign set_srv
deleted_at-Keeps key name q at m h = elim (Bool-cases (in_scope srv_model q m)) [
  | inl hit ↦ rw hit (&&-split (m.deleted_at == 0) _ h).1
  | inr miss ↦ rw miss h
]

pub flag-Keeps : (flag : Bool) → Keeps ((Column.has_enable_health_check, bool flag) ∷ [])
unfolding assign set_srv
flag-Keeps flag key name q at m h = elim (Bool-cases (in_scope srv_model q m)) [
  | inl hit ↦ rw hit h
  | inr miss ↦ rw miss h
]

pub updated-revived_srv :
    (key : ℕ) (name : Text) (at : ℤ) (m : TaskCallbackSrvModel)
    → (m.id == key && text_eq m.name name) ≡ true
    → live_srv key name
        (updated srv_model (by_key srv_model key) ((Column.deleted_at, uint 0) ∷ []) at m)
      ≡ true
unfolding assign set_srv
updated-revived_srv key name at m h =
    let (here, same) = &&-split (m.id == key) (text_eq m.name name) h in rw (here, here, same) refl

pub Created-live_srv :
    (name : Text) (rows : List TaskCallbackSrvModel) (row : TaskCallbackSrvModel)
    → Created srv_model rows (new_srv name) row
    → live_srv row.id name row ≡ true
Created-live_srv name rows row c = rw c.stored (ground (arith, text_eq_refl name))
