-- ===== src/Mysql/SrvRepo/Routes/Registered.antt =====
-- What a successful AddSrvRoutes leaves in the tables.
use easytask.Base.{
  arith, continue, ◌>>=◌, ℕ, ◌≡◌, refl, sym, ap, inl, inr, Bool, true, false, ◌&&◌, List, [], ◌∷◌,
  ◌==◌, ltb, any, select, All, Bool-cases, Text, Result, ok, continue-eq-ok, text_eq, not, subst,
  if◌then◌else◌, pure, Io, ==_iff, &&-split,
}
use easytask.Task.{TaskCallbackSrv}
use easytask.Mysql.Column.{Column, uint, bool}
use easytask.Mysql.Models.{TaskCallbackSrvModel}
use easytask.Mysql.Models.Columns.{srv_model}
use easytask.Mysql.Gorm.{Gorm, Query, where_, unscoped_where, in_scope}
use easytask.Mysql.Gorm.Laws.{GormLaws}
use easytask.Mysql.SrvRepo.Routes.{new_srv, revive, set_flag, add_routes, add_srv_routes}
use easytask.Mysql.SrvRepo.Routes.Kept.{
  any-map, any-append_last, any-select, live_route, live_srv, by_key, flag-Keeps,
  updated-revived_srv, Created-live_srv,
}
use easytask.Mysql.SrvRepo.Routes.Stored.{HasRoute, add_routes-AllStored}

zero_of : (n : ℕ) → ltb 0 n ≡ false → n ≡ 0
zero_of n h = ground arith

module _ (g : Gorm) (laws : GormLaws g) where
  -- A live service of a name is stored under a key.
  abbrev pub HasSrv : ℕ → Text → g.World → Type 0
  HasSrv key name w = any (live_srv key name) (laws.view w).srvs ≡ true

  set_flag-keeps :
      (key : ℕ) (flag : Bool) (w : g.World)
      → (set_flag g key flag w).0 ≡ ok tt
      → ((k : ℕ) (name : Text) → HasSrv k name w → HasSrv k name (set_flag g key flag w).1)
        × ((laws.view (set_flag g key flag w).1).routes ≡ (laws.view w).routes)
  set_flag-keeps key flag w e =
      let q = where_ ((λ m. m.id == key) ∷ []) in
      let xs = (Column.has_enable_health_check, bool flag) ∷ [] in
      let done = g.srvs.updates q xs w in
      let (n, good, rest, whole) = continue-eq-ok done.0 (λ _. pure tt) done.1 e in
      let (at, become, few, idle, columns) = laws.srv_laws.updates_ok q xs w n good in
      let rows : (laws.view done.1).srvs ≡ _ = ap (λ v. v.srvs) become in
      rw whole (
        (λ k name h.
            rw rows (any-map _ _ _ (laws.view w).srvs (λ m. flag-Keeps flag k name q at m) h)),
        ap (λ v. v.routes) become,
      )

  revive-HasSrv :
      (key : ℕ) (name : Text) (w : g.World)
      → any (λ m. m.id == key && text_eq m.name name) (laws.view w).srvs ≡ true
      → (revive g key w).0 ≡ ok tt
      → HasSrv key name (revive g key w).1
  revive-HasSrv key name w there e =
      let q = by_key srv_model key in
      let xs = (Column.deleted_at, uint 0) ∷ [] in
      let done = g.srvs.updates q xs w in
      let (n, good, rest, whole) = continue-eq-ok done.0 (λ _. pure tt) done.1 e in
      let (at, become, few, idle, columns) = laws.srv_laws.updates_ok q xs w n good in
      let rows : (laws.view done.1).srvs ≡ _ = ap (λ v. v.srvs) become in
      rw (whole, rows)
        (any-map _ _ _ (laws.view w).srvs (λ m. updated-revived_srv key name at m) there)

  abbrev named : Text → Query TaskCallbackSrvModel
  named name = unscoped_where ((λ m. text_eq m.name name) ∷ [])

  abbrev found_srv_at : Text → g.World → Result (TaskCallbackSrvModel × ℕ) × g.World
  found_srv_at name w = g.srvs.first_or_create (named name) (new_srv name) w

  -- What becomes of the service row by the result of the first statement.
  abbrev awake : TaskCallbackSrvModel × ℕ → Io g.World (Unit {0})
  awake res = if res.1 == 0 && ltb 0 res.0.deleted_at then revive g res.0.id else pure tt

  found-HasSrv :
      (name : Text) (w v : g.World) (row : TaskCallbackSrvModel)
      (others : List TaskCallbackSrvModel)
      → laws.view v ≡ laws.view w
      → select
          (in_scope srv_model (unscoped_where ((λ m. text_eq m.name name) ∷ [])))
          (laws.view w).srvs
        ≡ row ∷ others
      → (awake (row, 0) v).0 ≡ ok tt
      → HasSrv row.id name (awake (row, 0) v).1
  found-HasSrv name w v row others same hit e = elim (Bool-cases (ltb 0 row.deleted_at)) [
    | inl gone ↦ rw gone (
        revive-HasSrv row.id name v
          (rw (ap (λ x. x.srvs) same) (
            any-select (λ m. m.id == row.id && text_eq m.name name) _ (laws.view w).srvs others row
              hit
              (λ h.
                rw ((==_iff row.id row.id).1 refl) (&&-split (text_eq row.name name) true h).0)))
          (rw gone at e))
    | inr live ↦ rw live (
        rw (ap (λ x. x.srvs) same) (
          any-select (live_srv row.id name) _ (laws.view w).srvs others row hit
            (λ h. rw (zero_of row.deleted_at live, (==_iff row.id row.id).1 refl) h)))
  ]

  -- A live service of the name under a key, and all routes under this key.
  pub record Registered (srv : TaskCallbackSrv) (w : g.World) : Type 0 where
    pub key : ℕ
    pub srv_there : HasSrv key srv.name w
    pub routes_there : All (HasRoute g laws key w) srv.routes

  -- The rest of `add_srv_routes`, with the service's row awake.
  abbrev flagged : TaskCallbackSrvModel → Bool → Io g.World (Unit {0})
  flagged row has =
      if has && not row.has_enable_health_check then set_flag g row.id true else pure tt

  abbrev with_row : TaskCallbackSrv → TaskCallbackSrvModel → Io g.World (Unit {0})
  with_row srv row v =
      let added = add_routes g row.id srv.routes false v in continue added.0 (flagged row) added.1

  flagged-keeps :
      (row : TaskCallbackSrvModel) (has : Bool) (w : g.World)
      → (flagged row has w).0 ≡ ok tt
      → ((k : ℕ) (name : Text) → HasSrv k name w → HasSrv k name (flagged row has w).1)
        × ((laws.view (flagged row has w).1).routes ≡ (laws.view w).routes)
  flagged-keeps row has w e = elim (Bool-cases (has && not row.has_enable_health_check)) [
    | inl set ↦ rw set (set_flag-keeps row.id true w (rw set at e))
    | inr as_is ↦ rw as_is ((λ k name h. h), refl)
  ]

  with_row-Registered :
      (srv : TaskCallbackSrv) (row : TaskCallbackSrvModel) (w : g.World)
      → HasSrv row.id srv.name w
      → (with_row srv row w).0 ≡ ok tt
      → Registered srv (with_row srv row w).1
  with_row-Registered srv row w there e =
      let added = add_routes g row.id srv.routes false w in
      let (has, good, rest, whole) = continue-eq-ok added.0 (flagged row) added.1 e in
      let stored = add_routes-AllStored g laws row.id srv.routes false w has good in
      let (keeps, same) = flagged-keeps row has added.1 rest in
      rw whole (record {
        key = row.id;
        srv_there = keeps row.id srv.name (rw stored.same_srvs there);
        routes_there =
            subst (λ rows. All (λ r. any (live_route row.id r) rows ≡ true) srv.routes) (sym same)
              stored.stored;
      })

  awake-HasSrv :
      (name : Text) (w : g.World) (row : TaskCallbackSrvModel) (n : ℕ)
      → (found_srv_at name w).0 ≡ ok (row, n)
      → (awake (row, n) (found_srv_at name w).1).0 ≡ ok tt
      → HasSrv row.id name (awake (row, n) (found_srv_at name w).1).1
  awake-HasSrv name w row n good =
      let v = (found_srv_at name w).1 in
      let Goal : ℕ → Type 0 =
        λ n. (awake (row, n) v).0 ≡ ok tt → HasSrv row.id name (awake (row, n) v).1 in
      elim (laws.srv_laws.first_or_create_ok (named name) (new_srv name) w row n good) [
        | inl (zero, same, others, hit) ↦
            subst Goal (sym zero) (found-HasSrv name w v row others same hit)
        | inr (one, none, fresh, become) ↦ subst Goal (sym one) (λ h. rw (ap (λ x. x.srvs) become) (
            any-append_last (live_srv row.id name) (laws.view w).srvs row
              (Created-live_srv name (laws.view w).srvs row fresh)))
      ]

  -- When AddSrvRoutes succeeds, whatever was there before, the tables hold under one key a live service
  -- of the name and, for every route that was given, a live route of its address.
  pub add_srv_routes-Registered :
      (srv : TaskCallbackSrv) (w : g.World)
      → (add_srv_routes g srv w).0 ≡ ok tt
      → Registered srv (add_srv_routes g srv w).1
  unfolding add_srv_routes
  add_srv_routes-Registered srv w e =
      let found = found_srv_at srv.name w in
      let ((row, n), good, rest, whole) =
        continue-eq-ok found.0 (λ res. awake res >>= λ _. with_row srv res.0) found.1 e in
      let up = awake (row, n) found.1 in
      let (u, up_ok, rest', whole') = continue-eq-ok up.0 (λ _. with_row srv row) up.1 rest in
      rw (whole, whole')
        (with_row-Registered srv row up.1 (awake-HasSrv srv.name w row n good up_ok) rest')
