-- ===== src/Mysql/TaskRepo/Timeout/Unknown.antt =====
-- A page of `TimeoutTasks` whose rows name no live service.
use easytask.Base.{
  ◌≡◌, refl, sym, ap, ◌∙◌, inl, inr, Bool, false, true, not, ◌==◌, List, [], ◌∷◌, map, none, some,
  Text, ok, all, select, drop, All, text_eq, Bool-cases, all-Perm, all-drop, all-take, all-map,
  &&-split, if◌then◌else◌, continue-keeps, continue-eq-ok, ok-continue, ok-injective, length,
}
use easytask.Outside.{Outside}
use easytask.Task.{TaskCallbackSrv, Task, new_task_callback_srv}
use easytask.Task.Repo.{QueryStream, in_ids}
use easytask.Mysql.Ids.{to_task_callback_srv_entity_id}
use easytask.Mysql.Models.{TaskModel, TaskCallbackSrvModel, srv_to_entity}
use easytask.Mysql.Models.Columns.{srv_model}
use easytask.Mysql.Gorm.{Gorm, Window, where_, in_scope}
use easytask.Mysql.Gorm.Laws.{GormLaws}
use easytask.Mysql.TaskRepo.Timeout.{rows_tasks, page_of, distinct_srv_ids, find_srv}
use easytask.Mysql.SrvRepo.Query.{
  get_srvs, get_srvs_by_ids, join_routes, route_conds, scope_of, whole,
}
use easytask.Mysql.SrvRepo.Query.Grouping.{joined, get_srvs-joined}
use easytask.Mysql.Repos.{task_srv_repo}

-- No live service has the id that a row names.
abbrev pub is_unknown : List TaskCallbackSrvModel → TaskModel → Bool
is_unknown srvs m =
    all
      (λ s. not (
        text_eq (to_task_callback_srv_entity_id s.id)
          (to_task_callback_srv_entity_id m.callback_srv_id)))
      (select (λ s. s.deleted_at == 0) srvs)

not-false : (b : Bool) → not b ≡ true → b ≡ false
not-false true h = cc
not-false false h = refl

find_srv-none :
    (key : Text) (srvs : List TaskCallbackSrv)
    → all (λ s. not (text_eq s.id key)) srvs ≡ true
    → find_srv key srvs ≡ none
unfolding find_srv
find_srv-none key [] h = refl
find_srv-none key (s ∷ srvs) h =
    let (first, rest) =
      &&-split (not (text_eq s.id key)) (all (λ s. not (text_eq s.id key)) srvs) h in
    rw (find_srv-none key srvs rest) (ap (λ b. if b then some s else none) (not-false _ first))

-- What holds of all live rows, holds of those that a query of live rows reaches.
all-live :
    (p q : TaskCallbackSrvModel → Bool) (rows : List TaskCallbackSrvModel)
    → ((s : TaskCallbackSrvModel) → q s ≡ true → (s.deleted_at == 0) ≡ true)
    → all p (select (λ s. s.deleted_at == 0) rows) ≡ true
    → all p (select q rows) ≡ true
all-live p q [] live h = refl
all-live p q (s ∷ rows) live h = elim (Bool-cases (q s)) [
  | inl hit ↦
      let (first, rest) =
        &&-split (p s) (all p (select (λ s. s.deleted_at == 0) rows)) (rw (live s hit) at h) in
      rw (hit, first) (all-live p q rows live rest)
  | inr miss ↦ rw miss (
      all-live p q rows live (elim (Bool-cases (s.deleted_at == 0)) [
        | inl alive ↦
            (&&-split (p s) (all p (select (λ s. s.deleted_at == 0) rows)) (rw alive at h)).1
        | inr dead ↦ rw dead at h
      ]))
]

rows_tasks-none :
    (o : Outside) (srvs : List TaskCallbackSrv) (rows : List TaskModel)
    → All (λ m. find_srv (to_task_callback_srv_entity_id m.callback_srv_id) srvs ≡ none) rows
    → rows_tasks o srvs rows ≡ ok []
unfolding rows_tasks
rows_tasks-none o srvs [] h = refl
rows_tasks-none o srvs (m ∷ rows) (unknown, rest) =
    rw (rows_tasks, unknown) (rows_tasks-none o srvs rows rest)

module _ (g : Gorm) (laws : GormLaws g) where
  join_routes-view :
      (only_enabled : Bool) (ms : List TaskCallbackSrvModel) (w v : g.World)
      → laws.view v ≡ laws.view w
      → laws.view (join_routes g only_enabled ms v).1 ≡ laws.view w
  unfolding join_routes
  join_routes-view only_enabled [] w v h = h
  join_routes-view only_enabled (m ∷ ms) w v h =
      let q = where_ (route_conds g only_enabled (m.id ∷ map (λ m. m.id) ms)) in
      let win : Window = record { limit = none; offset = 0; by_id = false } in
      let found = g.routes.find q win v in
      let same = laws.route_laws.find_view q win v ∙ h in
      continue-keeps (λ u. laws.view u ≡ laws.view w) found.0 _ found.1 same (λ _. same)

  get_srvs-view :
      (stream : QueryStream) (w : g.World) → laws.view (get_srvs g stream w).1 ≡ laws.view w
  unfolding get_srvs
  get_srvs-view stream w =
      continue-keeps (λ u. laws.view u ≡ laws.view w) (scope_of stream.options whole) _ w refl
        (λ scope.
          let win : Window = record {
            limit = some stream.limit;
            offset = stream.offset;
            by_id = false;
          } in
          let found = g.srvs.find (where_ scope.conds) win w in
          let same = laws.srv_laws.find_view (where_ scope.conds) win w in
          continue-keeps (λ u. laws.view u ≡ laws.view w) found.0 _ found.1 same
            (λ ms. join_routes-view scope.only_enabled ms w found.1 same))

  -- A service that is returned is a live one.
  get_srvs-unknown :
      (stream : QueryStream) (w : g.World) (out : List TaskCallbackSrv) (key : Text)
      → (get_srvs g stream w).0 ≡ ok out
      → all
          (λ s. not (text_eq (to_task_callback_srv_entity_id s.id) key))
          (select (λ s. s.deleted_at == 0) (laws.view w).srvs)
        ≡ true
      → all (λ s. not (text_eq s.id key)) out ≡ true
  unfolding srv_to_entity new_task_callback_srv
  get_srvs-unknown stream w out key e h =
      let (scope, ms, rows, scoped, (listed, perm, cut), routes, made) =
        get_srvs-joined g laws stream w out e in
      let p : TaskCallbackSrvModel → Bool =
        λ s. not (text_eq (to_task_callback_srv_entity_id s.id) key) in
      let q = in_scope srv_model (where_ scope.conds) in
      ap (all (λ s. not (text_eq s.id key))) made
      ∙ all-map (λ (s : TaskCallbackSrv). not (text_eq s.id key)) (joined rows) p ms (λ m k. k)
          (ap (all p) cut
            ∙ all-take p stream.limit (drop stream.offset listed) (
                all-drop p stream.offset listed (
                  all-Perm p perm
                  ∙ all-live p q (laws.view w).srvs (λ s k. in_scope-live scope.conds s k) h)))
    where
      in_scope-live :
          (conds : List (TaskCallbackSrvModel → Bool)) (s : TaskCallbackSrvModel)
          → in_scope srv_model (where_ conds) s ≡ true
          → (s.deleted_at == 0) ≡ true
      in_scope-live conds s k = (&&-split (s.deleted_at == 0) (all (λ c. c s) conds) k).0

  abbrev Missing : List TaskCallbackSrv → TaskModel → Type 0
  Missing srvs m = find_srv (to_task_callback_srv_entity_id m.callback_srv_id) srvs ≡ none

  unknown-none :
      (stream : QueryStream) (v : g.World) (srvs : List TaskCallbackSrv) (rows : List TaskModel)
      → (get_srvs g stream v).0 ≡ ok srvs
      → All (λ m. is_unknown (laws.view v).srvs m ≡ true) rows
      → All (Missing srvs) rows
  unknown-none stream v srvs [] known h = tt
  unknown-none stream v srvs (m ∷ rows) known (u, rest) =
      let key = to_task_callback_srv_entity_id m.callback_srv_id in
      (
        find_srv-none key srvs (get_srvs-unknown stream v srvs key known u),
        unknown-none stream v srvs rows known rest,
      )

  module _ (o : Outside) where
    pub page_of-unknown :
        (rows : List TaskModel) (v : g.World) (page : List Task × Text)
        → All (λ m. is_unknown (laws.view v).srvs m ≡ true) rows
        → (page_of g o (task_srv_repo g) rows v).0 ≡ ok page
        → page ≡ ([], [])
    unfolding page_of get_srvs_by_ids
    page_of-unknown [] v page h e = sym (ok-injective e)
    page_of-unknown (m ∷ ms) v page h e =
        let ids = distinct_srv_ids [] (m ∷ ms) in
        let stream : QueryStream = record {
          limit = length ids;
          offset = 0;
          options = in_ids ids ∷ [];
        } in
        let got = get_srvs g stream v in
        let (srvs, known, e1, q1) = continue-eq-ok got.0 _ got.1 e in
        let none_known = unknown-none stream v srvs (m ∷ ms) known h in
        sym (
          ok-injective (
            sym (ap (λ r. r.0) (ok-continue _ got.1 (rows_tasks-none o srvs (m ∷ ms) none_known)))
            ∙ e1))

    pub page_of-view :
        (rows : List TaskModel) (v w : g.World)
        → laws.view v ≡ laws.view w
        → laws.view (page_of g o (task_srv_repo g) rows v).1 ≡ laws.view w
    unfolding page_of get_srvs_by_ids
    page_of-view [] v w h = h
    page_of-view (m ∷ ms) v w h =
        let ids = distinct_srv_ids [] (m ∷ ms) in
        let stream : QueryStream = record {
          limit = length ids;
          offset = 0;
          options = in_ids ids ∷ [];
        } in
        let got = get_srvs g stream v in
        let same = get_srvs-view stream v ∙ h in
        continue-keeps (λ u. laws.view u ≡ laws.view w) got.0 _ got.1 same
          (λ srvs.
            continue-keeps (λ u. laws.view u ≡ laws.view w) (rows_tasks o srvs (m ∷ ms)) _ got.1
              same (λ _. same))
