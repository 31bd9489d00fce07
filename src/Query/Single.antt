-- ===== src/Query/Single.antt =====
-- One execution of a query, as pg2json/query.go runs it in `runQuery`: one reply loop, over what the server
-- has sent on a connection that the earlier attempts have left.
use pg2json.Common.{◌≡◌, ◌≢◌, ◌⊎◌, inl, inr, Bool, true, false, some, Option, List, [], Bytes, map}
use pg2json.Stream.{OutWriter}
use pg2json.Stream.Laws.{IsWriter}
use pg2json.Args.{Arg}
use pg2json.Wire.{begin, add_cstring, finish}
use pg2json.StmtCache.{PreparedStmt, get, put, invalidate}
use pg2json.Query.{Mode, write_failed, Caps, Response, start, consume_text}
use pg2json.Query.Extended.{Outside, Session, RunError, in_query}
use pg2json.Query.Prepare.{statement, send, prepare_and_describe}
use pg2json.Query.Execute.{
  Executed, Ran, run_error, consume_rows, start_with, add_bind, cached_round, is_stale,
}
use pg2json.Query.Run.{as_message, attempt, is_retried}
use pg2json.Query.Sound.{consume_rows-IsKeptRun, consume_text-IsKeptRun}

module _ (env : Outside) {S : Type 0} (w : OutWriter S) (laws : IsWriter w) (caps : Caps)
    (mode : Mode) (sql : Bytes) (params : List Arg) where
  -- Nothing has been emitted.
  abbrev pub IsBlank : S → Type 0
  IsBlank out = laws.Sound out × (laws.emitted out ≡ [])

  -- The connection behind Bind, Execute and Sync for a statement, and behind a simple query.
  abbrev pub behind_bind : PreparedStmt → Session → Session
  behind_bind st s = (send env (record s { write_buf = (add_bind env st params s.write_buf).1 })).1

  abbrev pub behind_query : Session → Session
  behind_query s =
      let (q, buf) = begin b'Q' s.write_buf in
      (send env (record s { write_buf = finish q (add_cstring sql buf) })).1

  -- The reply loop of `bindExecute` for a statement, and that of a simple query, over what the server has
  -- sent by then.
  abbrev pub executed : PreparedStmt → Session → S → Executed S
  executed st s out =
      consume_rows env w caps mode st.result_fmts (behind_bind st s).inbox st.plan
        (start_with st.plan) out

  abbrev pub answered : Session → S → Response S
  answered s out = consume_text w caps mode (map as_message (behind_query s).inbox) start out

  -- The connection with a statement in its cache, and without the query's.
  abbrev pub cached_with : PreparedStmt → Session → Session
  cached_with st s = record s { cache = put (env.victim s.cache.seq) sql st s.cache }

  abbrev pub without_statement : Session → Session
  without_statement s = record s { cache = invalidate sql s.cache }

  -- A round of `runCached`, and an attempt of `runQuery`.
  abbrev pub round : S → Session → Bool × Ran S
  round out s = cached_round env w caps mode sql params out s

  abbrev pub tried : Bool → S → Session → Ran S
  tried no_cache out s = attempt env w caps mode no_cache sql params out s

  -- The statement that the connection `s` has for the query, cached or newly prepared, and the
  -- connection with it.
  pub data IsPrepared (s : Session) : PreparedStmt → Session → Type 0 where
    cached : (st : PreparedStmt) → get sql s.cache ≡ some st → IsPrepared s st s
    prepared :
        (st : PreparedStmt)
        → (prepare_and_describe env sql s).0 ≡ statement st
        → IsPrepared s st (cached_with st (prepare_and_describe env sql s).1)

  -- The connections that attempts leave before another one, from `s` on: a round that fails on a stale
  -- statement, which is then dropped, and an attempt that fails in a way that is retried.
  pub data Leaves (s : Session) : Session → Type 0 where
    fresh : Leaves s s
    stale :
        (t : Session) (out : S)
        → Leaves s t
        → IsBlank out
        → is_stale env w caps mode ((round out t).0) ((round out t).1) ≡ true
        → Leaves s (without_statement (round out t).1.session)
    retried :
        (t : Session) (out : S) (no_cache retry : Bool)
        → Leaves s t
        → IsBlank out
        → is_retried env w caps mode retry (tried no_cache out t) ≡ true
        → Leaves s ((tried no_cache out t).session)

  -- The writer and the error are those of one reply loop that began with nothing emitted: over the
  -- messages that the server has sent for the query on a connection that earlier attempts leave,
  -- with the statement of that connection. Or there is an error and nothing is emitted.
  pub data IsSingle (s : Session) : S → Option RunError → Type 0 where
    by_rows :
        (t u : Session) (st : PreparedStmt) (out : S)
        → Leaves s t
        → IsPrepared t st u
        → IsBlank out
        → IsSingle s ((executed st u out).out) ((executed st u out).result)
    by_text :
        (t : Session) (out : S)
        → Leaves s t
        → IsBlank out
        → IsSingle s ((answered t out).out) (run_error (answered t out).result)
    nothing : (out : S) (e : RunError) → IsBlank out → IsSingle s out (some e)

  IsSingle-Sound :
      {s : Session} {out : S} {e : Option RunError}
      → IsSingle s out e
      → (e ≡ some (in_query write_failed)) ⊎ laws.Sound out
  IsSingle-Sound (by_rows t u st out l p (s, b)) =
      consume_rows-IsKeptRun w laws caps mode env st.result_fmts (behind_bind st u).inbox st.plan
        (start_with st.plan) out s
  IsSingle-Sound (by_text t out l (s, b)) =
      consume_text-IsKeptRun w laws caps mode (map as_message (behind_query t).inbox) start out s
  IsSingle-Sound (nothing out e (s, b)) = inr s

  -- An error with one of the codes is the server's, so that the writer is sound; and where nothing is
  -- committed, Reset makes it blank again.
  pub reset-IsBlank :
      {s : Session} {out : S} {e : RunError}
      → IsSingle s out (some e)
      → e ≢ in_query write_failed
      → w.committed out ≡ false
      → IsBlank (w.reset out)
  reset-IsBlank {out = out} one other early = elim (IsSingle-Sound one) [
    | inl bad ↦ absurd (other cc)
    | inr s ↦ laws.reset out s early
  ]
