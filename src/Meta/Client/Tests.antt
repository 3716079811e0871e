-- ===== src/Meta/Client/Tests.antt =====
-- The theorem on meta/client.go with a server that redirects, and one that answers.
use influxdb_cluster.Prelude.{ℕ, zero, suc, false, none, [], ◌∷◌, arith}
use influxdb_cluster.Meta.Data.{Address}
use influxdb_cluster.Meta.Client.{
  ExecResult, executed, redirected, no_answer, Http, retry_until_exec,
}
use influxdb_cluster.Meta.Client.Retries.{Ends, retry_until_exec-Ends}

abbrev answer : ℕ → Address → ExecResult
answer zero url = no_answer []
answer (suc zero) url = redirected (b'b' ∷ [])
answer (suc (suc n)) url = executed 7

abbrev http : Http
http = record { closed = λ n. false; exec = answer }

retry_until_exec-Ends_example :
    Ends http 0 none (retry_until_exec http ((b'a' ∷ []) ∷ (b'b' ∷ []) ∷ []))
retry_until_exec-Ends_example =
    retry_until_exec-Ends http ((b'a' ∷ []) ∷ (b'b' ∷ []) ∷ []) (omega arith)
