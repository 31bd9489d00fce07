-- ===== src/Query/Attempts.antt =====
-- The two retry loops of pg2json/query.go, from one execution to the next.
use pg2json.Common.{
  ℕ, zero, suc, ◌≡◌, ◌≢◌, ◌⊎◌, inl, inr, refl, Bool, true, false, not, ◌&&◌, Option, some, List,
  Bytes, codes, length, ◌==◌, Bool-cases, Option-cases,
}
use pg2json.Stream.{OutWriter}
use pg2json.Stream.Laws.{IsWriter}
use pg2json.Args.{Arg}
use pg2json.Wire.{begin, add_cstring, finish}
use pg2json.StmtCache.{PreparedStmt, get}
use pg2json.Query.{Mode, write_failed, Caps}
use pg2json.Query.Extended.{
  Outside, Session, RunError, in_query, has_code, is_retryable_serialization, is_stale_stmt_error,
}
use pg2json.Query.Prepare.{Prepared, statement, prepare_failed, send, prepare_and_describe}
use pg2json.Query.Execute.{Ran, add_bind, settle, bind_execute, cached_round, is_stale, run_cached}
use pg2json.Query.Run.{run_simple, attempt, is_retried, retry_loop, run_query}
use pg2json.Query.Single.{
  IsBlank, IsPrepared, cached, prepared, Leaves, fresh, stale, retried, IsSingle, by_rows, by_text,
  nothing, reset-IsBlank,
}

module _ (env : Outside) {S : Type 0} (w : OutWriter S) (laws : IsWriter w) (caps : Caps)
    (mode : Mode) (sql : Bytes) (params : List Arg) (s₀ : Session) where
  abbrev IsEmpty : S → Type 0
  IsEmpty = IsBlank env w laws caps mode sql params

  abbrev IsOne : S → Option RunError → Type 0
  IsOne = IsSingle env w laws caps mode sql params s₀

  abbrev IsLeft : Session → Type 0
  IsLeft = Leaves env w laws caps mode sql params s₀

  has_code-not_write_failed :
      (code : Bytes) (e : RunError) → has_code code e ≡ true → e ≢ in_query write_failed
  unfolding has_code
  has_code-not_write_failed code e h is = let bad = rw is at h in cc

  stale_lem : (e : RunError) → is_stale_stmt_error e ≡ true → e ≢ in_query write_failed
  unfolding is_stale_stmt_error
  stale_lem e h = has_code-not_write_failed (codes "26000") e h

  bind_execute-IsSingle :
      (t u : Session) (st : PreparedStmt) (out : S)
      → IsLeft t
      → IsPrepared env w laws caps mode sql params t st u
      → IsEmpty out
      → let r = bind_execute env w caps mode sql st params out u in IsOne r.out r.err
  unfolding bind_execute settle
  bind_execute-IsSingle t u st out l p b =
      let (encoded, buf) = add_bind env st params u.write_buf in
      let (fails, s') = send env (record u { write_buf = buf }) in
      elim (Bool-cases encoded) [
        | inr bad ↦ rw (bad, bind_execute) (nothing out _ b)
        | inl good ↦ elim (Bool-cases fails) [
          | inl lost ↦ rw (good, lost, bind_execute) (nothing out _ b)
          | inr sent ↦ rw (good, sent, bind_execute) (by_rows t u st out l p b)
        ]
      ]

  Prepared-cases :
      (p : Prepared)
      → ((st : PreparedStmt) × (p ≡ statement st)) ⊎ ((e : RunError) × (p ≡ prepare_failed e))
  Prepared-cases (statement st) = inl (st, refl)
  Prepared-cases (prepare_failed e) = inr (e, refl)

  cached_round-IsSingle :
      (out : S) (s : Session)
      → IsLeft s
      → IsEmpty out
      → let r = (cached_round env w caps mode sql params out s).1 in IsOne r.out r.err
  unfolding cached_round
  cached_round-IsSingle out s l b = elim (Option-cases (get sql s.cache)) [
    | inr (st, hit) ↦ rw (hit, cached_round) (bind_execute-IsSingle s s st out l (cached st hit) b)
    | inl miss ↦ elim (Prepared-cases ((prepare_and_describe env sql s).0)) [
      | inr (e, bad) ↦ rw (miss, bad, cached_round) (nothing out e b)
      | inl (st, good) ↦
          rw (miss, good, cached_round) (bind_execute-IsSingle s _ st out l (prepared st good) b)
    ]
  ]

  both : (a b : Bool) → a && b ≡ true → (a ≡ true) × (b ≡ true)
  both true b h = (refl, h)
  both false b h = absurd cc

  not-true : (b : Bool) → not b ≡ true → b ≡ false
  not-true true h = absurd cc
  not-true false h = refl

  run_cached-IsSingle :
      (out : S) (s : Session)
      → IsLeft s
      → IsEmpty out
      → let r = run_cached env w caps mode sql params out s in IsOne r.out r.err
  unfolding run_cached is_stale
  run_cached-IsSingle out s l b =
      let r = (cached_round env w caps mode sql params out s).1 in
      let from_cache = (cached_round env w caps mode sql params out s).0 in
      let one : IsOne r.out r.err = cached_round-IsSingle out s l b in
      elim (Option-cases r.err) [
        | inl ok ↦ rw (ok, run_cached, is_stale) one
        | inr (e, bad) ↦
            elim (Bool-cases (from_cache && (is_stale_stmt_error e && not (w.committed r.out)))) [
              | inr kept ↦ rw (bad, kept, run_cached, is_stale) one
              | inl again ↦
                  let (hit, h) = both _ _ again in
                  let (old, early) = both _ _ h in
                  let blank : IsEmpty (w.reset r.out) =
                    reset-IsBlank env w laws caps mode sql params (rw bad at one) (stale_lem e old)
                      (not-true _ early) in
                  let goes : is_stale env w caps mode from_cache r ≡ true =
                    rw (bad, is_stale) again in
                  rw (bad, again, run_cached, is_stale)
                    (cached_round-IsSingle _ _ (stale s out l b goes) blank)
            ]
      ]

  run_simple-IsSingle :
      (out : S) (s : Session)
      → IsLeft s
      → IsEmpty out
      → let r = run_simple env w caps mode sql out s in IsOne r.out r.err
  unfolding run_simple
  run_simple-IsSingle out s l b =
      let (q, buf) = begin b'Q' s.write_buf in
      let (fails, s') = send env (record s { write_buf = finish q (add_cstring sql buf) }) in
      elim (Bool-cases fails) [
        | inl lost ↦ rw (lost, run_simple) (nothing out _ b)
        | inr sent ↦ rw (sent, run_simple) (by_text s out l b)
      ]

  attempt-IsSingle :
      (no_cache : Bool) (out : S) (s : Session)
      → IsLeft s
      → IsEmpty out
      → let r = attempt env w caps mode no_cache sql params out s in IsOne r.out r.err
  unfolding attempt
  attempt-IsSingle no_cache out s l b = elim (Bool-cases (no_cache && length params == 0)) [
    | inl plain ↦ rw (plain, attempt) (run_simple-IsSingle out s l b)
    | inr cached_one ↦ rw (cached_one, attempt) (run_cached-IsSingle out s l b)
  ]

  retryable_lem : (e : RunError) → is_retryable_serialization e ≡ true → e ≢ in_query write_failed
  unfolding is_retryable_serialization has_code
  retryable_lem e h is = let bad = rw is at h in cc

  -- Where `runQuery` retries, the writer is blank after Reset.
  retried-IsBlank :
      (retry : Bool) (r : Ran S)
      → IsOne r.out r.err
      → is_retried env w caps mode retry r ≡ true
      → IsEmpty (w.reset r.out) × ((e : RunError) × (r.err ≡ some e))
  unfolding is_retried
  retried-IsBlank retry r one h = elim (Option-cases r.err) [
    | inl ok ↦ absurd (let no = rw (ok, is_retried) at h in cc)
    | inr (e, bad) ↦
        let h' = rw (bad, is_retried) at h in
        let (_, h₂) = both retry _ h' in
        let (again, early) = both _ _ h₂ in
        (
          reset-IsBlank env w laws caps mode sql params (rw bad at one) (retryable_lem e again)
              (not-true _ early),
          (e, bad),
        )
  ]

  dropped :
      (out : S) (e : Option RunError) → IsEmpty out → ((x : RunError) × (e ≡ some x)) → IsOne out e
  dropped out e b (x, is) = rw is (nothing out x b)

  retry_loop-IsSingle :
      (left i : ℕ) (done : ℕ → Bool) (no_cache retry : Bool) (out : S) (s : Session)
      → IsLeft s
      → IsEmpty out
      → let r = retry_loop env w caps mode left i done no_cache retry sql params out s in
        IsOne r.out r.err
  unfolding retry_loop
  retry_loop-IsSingle zero i done no_cache retry out s l b = attempt-IsSingle no_cache out s l b
  retry_loop-IsSingle (suc left) i done no_cache retry out s l b =
      let r = attempt env w caps mode no_cache sql params out s in
      let one : IsOne r.out r.err = attempt-IsSingle no_cache out s l b in
      elim (Bool-cases (is_retried env w caps mode retry r)) [
        | inr over ↦ rw (over, retry_loop) one
        | inl goes ↦
            let (blank, error) = retried-IsBlank retry r one goes in
            elim (Bool-cases (done i)) [
              | inl late ↦ rw (goes, late, retry_loop) one
              | inr early ↦ elim (Bool-cases (done (suc i))) [
                | inl late ↦ rw (goes, early, late, retry_loop) (dropped _ _ blank error)
                | inr on ↦
                    let left_on : IsLeft r.session = retried s out no_cache retry l b goes in
                    rw (goes, early, on, retry_loop)
                      (retry_loop-IsSingle left (suc (suc i)) done no_cache retry (w.reset r.out)
                        r.session left_on blank)
              ]
            ]
      ]

-- Whatever the server, the connection and the context do, on a writer that keeps the contract and has
-- emitted nothing: the output and the error of `runQuery` are those of a single reply loop that began
-- with nothing emitted, however often the query was run again, over what the server has sent for the
-- query on the connection as earlier attempts leave it, and with the statement that this connection
-- has; or there is an error, and nothing is emitted.
pub run_query-IsSingle :
    (env : Outside) {S : Type 0} (w : OutWriter S) (laws : IsWriter w) (caps : Caps) (mode : Mode)
    (sql : Bytes) (params : List Arg) (s : Session) (done : ℕ → Bool) (shaped no_cache retry : Bool)
    (out : S)
    → IsBlank env w laws caps mode sql params out
    → let r = run_query env w caps mode done shaped no_cache retry sql params out s in
      IsSingle env w laws caps mode sql params s r.out r.err
unfolding run_query
run_query-IsSingle env w laws caps mode sql params s done shaped no_cache retry out b =
    elim (Bool-cases shaped) [
      | inr bad ↦ rw (bad, run_query) (nothing out _ b)
      | inl fine ↦ elim (Bool-cases (done 0)) [
        | inl late ↦ rw (fine, late, run_query) (nothing out _ b)
        | inr on ↦
            rw (fine, on, run_query)
              (retry_loop-IsSingle env w laws caps mode sql params s 2 1 done no_cache retry out s
                fresh b)
      ]
    ]
