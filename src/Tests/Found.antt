-- ===== src/Tests/Found.antt =====
-- A service with two routes is registered and found again.
use easytask.Base.{all, any, All, ◌≡◌, refl, true, false, [], ◌∷◌, List, pos, codes, ok, text_eq}
use easytask.Task.{TaskCallbackSrv, TaskCallbackSrvRoute}
use easytask.Mysql.Gorm.Memory.{memory, memory-laws}
use easytask.Mysql.Repos.{task_srv_repo}
use easytask.Mysql.SrvRepo.Query.{get_srvs}
use easytask.Mysql.SrvRepo.Routes.{add_srv_routes}
use easytask.Mysql.Models.Columns.{route_has, set_route}
use easytask.Mysql.Gorm.Laws.{assign}
use easytask.Registry.{discover, register}
use easytask.Registry.Found.{names_key, is_at, by_name, register-discover}
use easytask.Tests.Samples.{start, route, srv}

abbrev second_route : TaskCallbackSrvRoute
second_route = record {
  id = [];
  scheme = codes "https";
  host = codes "h2";
  port = pos 443;
  callback_timeout_sec = pos 0;
  is_enable_health_check = false;
}

-- As the request brings it, without an id; one of the routes is there already.
abbrev wanted : TaskCallbackSrv
wanted = record {
  id = [];
  name = codes "mail";
  routes = route ∷ second_route ∷ [];
  has_enable_health_check = true;
}

abbrev both : List TaskCallbackSrv
both = (record srv { routes = route ∷ record second_route { id = codes "5" } ∷ [] }) ∷ []

registered : (register (task_srv_repo memory) wanted start).0 ≡ ok tt
unfolding register text_eq add_srv_routes route_has assign set_route
registered = refl

answered :
    (get_srvs memory (by_name wanted.name) (register (task_srv_repo memory) wanted start).1).0
    ≡ ok both
unfolding get_srvs register text_eq add_srv_routes route_has assign set_route
answered = refl

one_name :
    all
      (names_key wanted.name 3)
      (memory-laws.view (register (task_srv_repo memory) wanted start).1).srvs
    ≡ true
unfolding register text_eq add_srv_routes route_has assign set_route
one_name = refl

register-discover_example :
    (s : TaskCallbackSrv) × ((discover
        (task_srv_repo memory)
        wanted.name
        (register (task_srv_repo memory) wanted start).1).0
      ≡ ok s)
    × (s.name ≡ codes "mail")
    × All (λ r. any (is_at r) s.routes ≡ true) (route ∷ second_route ∷ [])
register-discover_example =
    register-discover memory memory-laws wanted start both 3 registered one_name answered
