-- ===== src/Tests/Services.antt =====
-- Callback services at concrete inputs.
use easytask.Base.{◌≡◌, refl, ok, text_eq, some, List, [], ◌∷◌, codes, map, select, false}
use easytask.Task.Repo.{QueryStream, eq_name}
use easytask.Mysql.Models.{TaskCallbackSrvModel, TaskCallbackSrvRouteModel}
use easytask.Mysql.Models.Columns.{srv_model, route_model}
use easytask.Mysql.Gorm.{where_, in_scope}
use easytask.Mysql.Gorm.Laws.{Found}
use easytask.Mysql.Gorm.Memory.{memory, memory-laws}
use easytask.Mysql.SrvRepo.Query.{Scope, scope_of, whole, route_conds, get_srvs}
use easytask.Mysql.SrvRepo.Query.Grouping.{joined, routes_window, get_srvs-joined}
use easytask.Mysql.SrvRepo.Routes.{del_srv_routes}
use easytask.Mysql.SrvRepo.Routes.Flag.{flags, del_srv_routes-flags}
use easytask.Tests.Samples.{srv, start, srv_row, route_row}

abbrev mail : QueryStream
mail = record { limit = 1; offset = 0; options = eq_name (codes "mail") ∷ [] }

one_srv : (get_srvs memory mail start).0 ≡ ok (srv ∷ [])
unfolding get_srvs text_eq
one_srv = refl

get_srvs-joined_example :
    (scope : Scope) × (ms : List TaskCallbackSrvModel) × (rows : List TaskCallbackSrvRouteModel)
    × (scope_of mail.options whole ≡ ok scope)
    × Found
        (record { limit = some 1; offset = 0; by_id = false })
        (select (in_scope srv_model (where_ scope.conds)) (srv_row ∷ []))
        ms
    × Found
        (routes_window memory)
        (select
          (in_scope route_model
            (where_ (route_conds memory scope.only_enabled (map (λ m. m.id) ms))))
          (route_row ∷ []))
        rows
    × ((srv ∷ []) ≡ map (joined rows) ms)
get_srvs-joined_example = get_srvs-joined memory memory-laws mail start (srv ∷ []) one_srv

del_srv_routes-flags_example :
    flags (del_srv_routes memory srv start).1.tables.srvs ≡ flags (srv_row ∷ [])
del_srv_routes-flags_example = del_srv_routes-flags memory memory-laws srv start
