-- ===== src/Errs.antt =====
-- pkg/errs/err.go and internal/util/errs/err.go: the business errors and their messages.
use easytask.Base.{ℕ, ◌==◌, if◌then◌else◌, Text, codes, Error, biz, new}

abbrev pub err_code_internal : ℕ
err_code_internal = 500

abbrev pub err_code_route_not_found : ℕ
err_code_route_not_found = 404

abbrev pub err_code_route_method_not_allow : ℕ
err_code_route_method_not_allow = 405

abbrev pub err_code_args_invalid : ℕ
err_code_args_invalid = 10001

abbrev pub err_code_task_not_found : ℕ
err_code_task_not_found = 10002

abbrev pub err_code_task_callback_srv_not_found : ℕ
err_code_task_callback_srv_not_found = 10003

abbrev pub err_code_server_stopped : ℕ
err_code_server_stopped = 10004

-- A missing key of the map reads as the empty text.
unfoldable pub get_err_msg : ℕ → Text
get_err_msg code =
    if code == 500
    then codes "internal error"
    else if code == 404
    then codes "route not found"
    else if code == 10001
    then codes "request arguments are invalid"
    else if code == 10002
    then codes "task not found"
    else if code == 10003
    then codes "task callback server not found"
    else if code == 10004
    then codes "task server is stopped"
    else codes ""

unfoldable pub new_biz_err_with_msg : ℕ → Text → Error
new_biz_err_with_msg code msg = biz code msg

unfoldable pub new_biz_err : ℕ → Error
unfolding new_biz_err_with_msg get_err_msg
new_biz_err code = new_biz_err_with_msg code (get_err_msg code)

abbrev pub err_current_node_no_master : Error
err_current_node_no_master = new (codes "current node is not master")

abbrev pub err_server_started : Error
err_server_started = new (codes "server started")
