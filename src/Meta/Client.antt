-- ===== src/Meta/Client.antt =====
-- The loop of meta/client.go that sends a command to the meta servers, until one of them has executed
-- it. HTTP is a parameter: what a request gives may depend on how many were made before.
pub mod Retries
mod Tests
use influxdb_cluster.Prelude.{
  ℕ, zero, suc, ◌+◌, Bool, true, false, Option, none, some, List, [], ◌∷◌, length, get_elem?, ltb,
  leb, if◌then◌else◌,
}
use influxdb_cluster.Meta.Data.{Address}

abbrev pub max_retries : ℕ
max_retries = 10

-- What `exec` gives: the index of the command, a redirection, an error of the command, or another one.
pub data ExecResult : Type 0 where
  executed : (index : ℕ) → ExecResult
  redirected : (host : Address) → ExecResult
  command_failed no_answer : (message : Address) → ExecResult

-- `closed` says whether the client is seen to be closed before a try, and `exec` is the answer of
-- a server to a try.
pub record Http : Type 0 where
  pub closed : ℕ → Bool
  pub exec : ℕ → Address → ExecResult

-- The end of the loop: success with the index to wait for, success with none since the client was
-- closed, or an error; or a panic.
pub data Ended : Type 0 where
  done : (index : ℕ) → Ended
  gave_up : Ended
  failed : ExecResult → Ended
  panics stuck : Ended

-- The end, and the requests that were made, in order.
pub record Run : Type 0 where
  pub ended : Ended
  pub requests : List Address

abbrev pub ended_at : Ended → Run
ended_at e = record { ended = e; requests = [] }

abbrev pub after : Address → Run → Run
after url r = record { ended = r.ended; requests = url ∷ r.requests }

-- The number of the server after the last is 0.
abbrev pub wrapped : ℕ → List Address → ℕ
wrapped current servers = if leb (length servers) current then 0 else current

abbrev pub of_server : Option Address → ℕ → Option (Address × ℕ)
of_server none current = none
of_server (some server) current = some (server, current)

-- The address of the next request, where a server stands for its URL, and the number of its server; with no server there is none.
unfoldable pub next_url : Option Address → ℕ → List Address → Option (Address × ℕ)
next_url (some host) current servers = some (host, current)
next_url none current servers =
    of_server (get_elem? servers (wrapped current servers)) (wrapped current servers)

-- A redirection to no address counts as none.
abbrev pub redirect_server : Address → Option Address
redirect_server [] = none
redirect_server (c ∷ host) = some (c ∷ host)

-- What the loop does with an answer, after so many tries.
unfoldable pub continue : ExecResult → ℕ → (Option Address → Run) → Run
continue (executed index) tries k = ended_at (done index)
continue (redirected host) tries k =
    if ltb max_retries tries then ended_at (failed (redirected host)) else k (redirect_server host)
continue (command_failed message) tries k = ended_at (failed (command_failed message))
continue (no_answer message) tries k =
    if ltb max_retries tries then ended_at (failed (no_answer message)) else k none

abbrev pub request :
    Option (Address × ℕ) → (Address → ExecResult) → ℕ → (ℕ → Option Address → Run) → Run
request none exec tries k = ended_at panics
request (some u) exec tries k = after u.0 (continue (exec u.0) tries (k (suc u.1)))

-- The loop of retryUntilExec, with fuel.
unfoldable pub next_try : Http → List Address → ℕ → ℕ → ℕ → Option Address → Run
next_try http servers zero tries current redirect = ended_at stuck
next_try http servers (suc fuel) tries current redirect =
    let rest = next_try http servers fuel (suc tries) in
    if http.closed tries
    then ended_at gave_up
    else request (next_url redirect current servers) (http.exec tries) (suc tries) rest

unfoldable pub retry_until_exec : Http → List Address → Run
retry_until_exec http servers = next_try http servers (max_retries + 1) 0 0 none
