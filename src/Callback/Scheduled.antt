-- ===== src/Callback/Scheduled.antt =====
-- How long the callbacks of scheduled tasks may take.
use easytask.Base.{◌≡◌, pos, Text}
use easytask.Outside.{Outside}
use easytask.Task.{Task, TaskCallbackSrvRoute}
use easytask.Task.Logs.{TaskLogRepo}
use easytask.Mysql.Gorm.{Gorm}
use easytask.Callback.{Http, Body, timeout_sec, clean_path, req_url, send}

-- Every call of a task, whatever the route, is a request without a timeout.
abbrev pub Unlimited : {W : Type 0} → Http W → TaskLogRepo W → Task → Type 0
Unlimited h log_repo t =
    (route : TaskCallbackSrvRoute) (path : Text) (body : Body)
    → send h log_repo route path (timeout_sec route t) body
      ≡ h.post (record { url = req_url route (clean_path path); timeout = pos 0; body = body })
