-- ===== src/Meta/Client/Retries.antt =====
-- How often meta/client.go tries a command, and what its end means.
use mathlib.Core.Path.{subst}
use influxdb_cluster.Prelude.{
  true, ℕ, zero, suc, ◌+◌, ◌≤◌, ◌<◌, ◌≡◌, refl, ap, inl, inr, false, Bool-cases, Option, none, some,
  List, [], ◌∷◌, length, get_elem?, ltb, if◌then◌else◌, arith,
}
use influxdb_cluster.Meta.Data.{Address}
use influxdb_cluster.Meta.Client.{
  max_retries, ExecResult, Ended, executed, redirected, command_failed, no_answer, Http, done,
  gave_up, failed, panics, stuck, Run, ended_at, after, wrapped, of_server, redirect_server,
  next_url, continue, next_try, retry_until_exec,
}

-- The error of a last request: that of the command, or another one when the retries are used up.
pub IsLastError : ExecResult → ℕ → Type 0
IsLastError (executed index) n = ⊥
IsLastError (redirected host) n = n ≡ max_retries + 1
IsLastError (command_failed message) n = Unit
IsLastError (no_answer message) n = n ≡ max_retries + 1

-- How the loop ends after `n` requests: success and an error are what the last request gave.
-- `last` is the address of the last request, if there was one.
pub EndsAs : Http → ℕ → Option Address → Ended → Type 0
EndsAs http n last (done index) =
    (k : ℕ) × (url : Address) × (last ≡ some url) × (http.exec k url ≡ executed index) × (suc k ≡ n)
EndsAs http n last gave_up = http.closed n ≡ true
EndsAs http n last (failed x) =
    (k : ℕ) × (url : Address) × (last ≡ some url)
    × (http.exec k url ≡ x)
    × (suc k ≡ n)
    × IsLastError x n
EndsAs http n last panics = ⊥
EndsAs http n last stuck = ⊥

-- The last of the addresses, or the one before them.
abbrev pub last_after : Option Address → List Address → Option Address
last_after before [] = before
last_after before (url ∷ urls) = last_after (some url) urls

-- The end of the loop that goes on after so many tries, the last of them at `before`.
pub record Ends (http : Http) (tries : ℕ) (before : Option Address) (r : Run) : Type 0 where
  pub bounded : length r.requests + tries ≤ max_retries + 1
  pub outcome : EndsAs http (length r.requests + tries) (last_after before r.requests) r.ended

ended_at-Ends :
    (http : Http) (tries : ℕ) (before : Option Address) (e : Ended)
    → tries ≤ max_retries + 1
    → EndsAs http tries before e
    → Ends http tries before (ended_at e)
ended_at-Ends http tries before e h outcome = record {
  bounded = omega arith;
  outcome = subst (λ n. EndsAs http n before e) (omega arith) outcome;
}

one_more :
    (http : Http) (tries : ℕ) (before : Option Address) (url : Address) (r : Run)
    → Ends http (suc tries) (some url) r
    → Ends http tries before (after url r)
one_more http tries before url r e = record {
  bounded = omega (arith, e.bounded);
  outcome =
      subst (λ n. EndsAs http n (last_after (some url) r.requests) r.ended) (omega arith) e.outcome;
}

failed-Ends :
    (http : Http) (tries : ℕ) (url : Address) (x : ExecResult)
    → http.exec tries url ≡ x
    → tries < max_retries + 1
    → IsLastError x (suc tries)
    → Ends http (suc tries) (some url) (ended_at (failed x))
unfolding EndsAs
failed-Ends http tries url x e h last =
    ended_at-Ends http (suc tries) (some url) (failed x) (omega arith)
      (tries, url, refl, e, refl, last)

-- After the last try there is an error, and else another try.
last_or :
    (http : Http) (tries : ℕ) (url : Address) (x : ExecResult) (r : Run)
    → http.exec tries url ≡ x
    → tries < max_retries + 1
    → (suc tries ≡ max_retries + 1 → IsLastError x (suc tries))
    → (suc tries ≤ max_retries → Ends http (suc tries) (some url) r)
    → Ends http
        (suc tries)
        (some url)
        (if ltb max_retries (suc tries) then ended_at (failed x) else r)
last_or http tries url x r e h last rest = elim (Bool-cases (ltb max_retries (suc tries))) [
  | inl over ↦ rw over (failed-Ends http tries url x e h (last (above tries over h)))
  | inr under ↦ rw under (rest (below tries under))
]
  where
    below : (n : ℕ) → ltb max_retries (suc n) ≡ false → suc n ≤ max_retries
    below n e = ground arith

    above : (n : ℕ) → ltb max_retries (suc n) ≡ true → n < max_retries + 1 → suc n ≡ max_retries + 1
    above n e h = ground arith

continue-Ends :
    (http : Http) (tries : ℕ) (url : Address) (x : ExecResult) (k : Option Address → Run)
    → http.exec tries url ≡ x
    → tries < max_retries + 1
    → (suc tries ≤ max_retries
        → (redirect : Option Address) → Ends http (suc tries) (some url) (k redirect))
    → Ends http (suc tries) (some url) (continue x (suc tries) k)
unfolding continue EndsAs IsLastError
continue-Ends http tries url (executed index) k e h rest =
    ended_at-Ends http (suc tries) (some url) (done index) (omega arith) (tries, url, refl, e, refl)
continue-Ends http tries url (redirected host) k e h rest =
    last_or http tries url (redirected host) (k (redirect_server host)) e h (λ n. n)
      (λ more. rest more (redirect_server host))
continue-Ends http tries url (command_failed message) k e h rest =
    failed-Ends http tries url (command_failed message) e h tt
continue-Ends http tries url (no_answer message) k e h rest =
    last_or http tries url (no_answer message) (k none) e h (λ n. n) (λ more. rest more none)

get_elem?-some :
    (i : ℕ) (xs : List Address) → i < length xs → (a : Address) × (get_elem? xs i ≡ some a)
get_elem?-some i [] h = absurd (omega arith)
get_elem?-some zero (x ∷ xs) h = (x, refl)
get_elem?-some (suc i) (x ∷ xs) h = get_elem?-some i xs (omega arith)

wrapped_lem :
    (current : ℕ) (servers : List Address)
    → 0 < length servers
    → wrapped current servers < length servers
wrapped_lem current servers h = ground arith

-- There is a server to ask.
next_url-some :
    (redirect : Option Address) (current : ℕ) (servers : List Address)
    → 0 < length servers
    → (u : Address × ℕ) × (next_url redirect current servers ≡ some u)
unfolding next_url
next_url-some (some host) current servers h = ((host, current), refl)
next_url-some none current servers h =
    let (server, found) =
      get_elem?-some (wrapped current servers) servers (wrapped_lem current servers h) in
    ((server, wrapped current servers), ap (λ o. of_server o (wrapped current servers)) found)

next_try-Ends :
    (http : Http) (servers : List Address) (fuel tries current : ℕ)
    (redirect before : Option Address)
    → 0 < length servers
    → 0 < fuel
    → tries + fuel ≡ max_retries + 1
    → Ends http tries before (next_try http servers fuel tries current redirect)
unfolding next_try EndsAs
next_try-Ends http servers zero tries current redirect before h some_fuel e = absurd (omega arith)
next_try-Ends http servers (suc fuel) tries current redirect before h some_fuel e =
    elim (Bool-cases (http.closed tries)) [
      | inl over ↦ rw over (ended_at-Ends http tries before gave_up (omega arith) over)
      | inr still ↦
          let (u, found) = next_url-some redirect current servers h in
          rw still (
            rw found (
              one_more http tries before u.0 _ (
                continue-Ends http tries u.0 (http.exec tries u.0)
                  (next_try http servers fuel (suc tries) (suc u.1)) refl (omega arith)
                  (λ more next.
                    next_try-Ends http servers fuel (suc tries) (suc u.1) next (some u.0) h
                      (omega arith) (omega arith)))))
    ]

-- With a server to ask, the loop makes at most one request more than `maxRetries`, and ends with no
-- panic. If it gives an index, the last request, to the last address that was asked, was executed
-- with this index; if it gives an error, that is the answer of the last request, and either an error of the command or one
-- after which the retries are used up; if it gives up, the client is closed.
pub retry_until_exec-Ends :
    (http : Http) (servers : List Address)
    → 0 < length servers
    → Ends http 0 none (retry_until_exec http servers)
unfolding retry_until_exec
retry_until_exec-Ends http servers h =
    next_try-Ends http servers (max_retries + 1) 0 0 none none h (omega arith) (omega arith)
