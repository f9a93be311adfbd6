-- ===== src/Web/Route.antt =====
-- `ev_handler` of src/web/bdview_web.cpp: which handler a request goes to, with which arguments.
mod Pids
mod Tests
use bdtrace.Common.{
  ℕ, zero, suc, ◌+◌, ◌≤◌, Bool, true, false, not, ◌&&◌, ◌||◌, List, [], ◌∷◌, ◌++◌, if◌then◌else◌,
  Text, text_eq,
}
use bdtrace.Common.Int.{ℤ, pos, negsuc}
use bdtrace.Common.Literals.{bytes}
use bdtrace.Web.Query.{starts_with, occurs, get_query_param, extract_pid_from_uri}

-- The resources below a process.
pub data PidPage : Type 0 where
  filedirs files children io : PidPage

-- A handler with its arguments besides the connection.
pub data Route : Type 0 where
  summary parallelism critical_path diagnostics static bad_pid : Route
  processes all_files slowest timeline hotspots failures impact races rebuild rdeps : Text → Route
  by_path by_prefix : Text → Route
  pid_page : PidPage → ℕ → Text → Route

abbrev pub page_suffix : PidPage → Text
page_suffix filedirs = bytes "/filedirs"
page_suffix files = bytes "/files"
page_suffix children = bytes "/children"
page_suffix io = bytes "/io"

abbrev pub processes_prefix : Text
processes_prefix = bytes "/api/processes/"

-- `starts_with(uri, "/api/processes/") && uri.find(suffix) != npos`.
unfoldable pub asks_for : PidPage → Text → Bool
asks_for p uri = starts_with uri processes_prefix && occurs (page_suffix p) uri

-- `if (pid > 0) handle... else send_error(c, 400, "Bad PID")`.
unfoldable pub with_pid : PidPage → Text → ℤ → Route
with_pid p query (pos zero) = bad_pid
with_pid p query (pos (suc n)) = pid_page p (suc n) query
with_pid p query (negsuc n) = bad_pid

unfoldable pub pid_route : PidPage → Text → Text → Route
pid_route p uri query = with_pid p query (extract_pid_from_uri uri processes_prefix (page_suffix p))

-- The tests behind those on the pages of a process that stand first.
unfoldable pub route_rest : Text → Text → Route
route_rest uri query =
    if text_eq uri (bytes "/api/files")
    then all_files query
    else if text_eq uri (bytes "/api/files/by-path")
    then by_path (get_query_param query (bytes "path"))
    else if text_eq uri (bytes "/api/files/by-prefix")
    then by_prefix (get_query_param query (bytes "prefix"))
    else if text_eq uri (bytes "/api/slowest")
    then slowest query
    else if text_eq uri (bytes "/api/timeline")
    then timeline query
    else if text_eq uri (bytes "/api/parallelism")
    then parallelism
    else if text_eq uri (bytes "/api/critical-path")
    then critical_path
    else if text_eq uri (bytes "/api/hotspots")
    then hotspots query
    else if text_eq uri (bytes "/api/failures")
    then failures query
    else if text_eq uri (bytes "/api/diagnostics")
    then diagnostics
    else if asks_for io uri
    then pid_route io uri query
    else if text_eq uri (bytes "/api/impact")
    then impact query
    else if text_eq uri (bytes "/api/races")
    then races query
    else if text_eq uri (bytes "/api/rebuild")
    then rebuild query
    else if text_eq uri (bytes "/api/rdeps")
    then rdeps query
    else static

unfoldable pub route : Text → Text → Route
route uri query =
    if text_eq uri (bytes "/api/summary")
    then summary
    else if text_eq uri (bytes "/api/processes")
    then processes query
    else if asks_for filedirs uri
    then pid_route filedirs uri query
    else if asks_for files uri
    then pid_route files uri query
    else if asks_for children uri
    then pid_route children uri query
    else route_rest uri query
