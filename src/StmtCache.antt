-- ===== src/StmtCache.antt =====
-- The cache of prepared statements: pg2json/stmtcache.go. A map is an association list in which a key
-- stands once; the mutex makes each operation one step. Which entry an eviction meets first is the map
-- iteration's choice and an argument of `put`, a position; strconv.AppendUint in base 36 is a parameter
-- of `next_name`. hashKey only calls hash/fnv.
pub mod Entries
pub mod Changes
pub mod Bounds
use pg2json.Common.{
  ℕ, zero, suc, ◌+◌, ◌%◌, ◌^◌, Bool, true, false, Option, none, some, List, [], ◌∷◌, ◌++◌, Bytes,
  codes, length, leb, ◌==◌, if◌then◌else◌, ◌&&◌,
}
use pg2json.Rows.{Plan}

-- `preparedStmt`
pub record PreparedStmt : Type 0 where
  pub name : Bytes
  pub plan : Plan
  pub result_fmts : List ℕ

-- `stmtCache`
pub record StmtCache : Type 0 where
  pub max : ℕ
  pub by_key : List (Bytes × PreparedStmt)
  pub closed : List Bytes
  pub seq : ℕ

unfoldable pub same_text : Bytes → Bytes → Bool
same_text [] [] = true
same_text [] (d ∷ t) = false
same_text (c ∷ s) [] = false
same_text (c ∷ s) (d ∷ t) = c == d && same_text s t

-- The operations of a Go map: an index, an assignment, and `delete` with the value that it drops.
unfoldable pub lookup : Bytes → List (Bytes × PreparedStmt) → Option PreparedStmt
lookup sql [] = none
lookup sql (e ∷ es) = if same_text sql e.0 then some e.1 else lookup sql es

unfoldable pub assign :
    Bytes → PreparedStmt → List (Bytes × PreparedStmt) → List (Bytes × PreparedStmt)
assign sql st [] = (sql, st) ∷ []
assign sql st (e ∷ es) = if same_text sql e.0 then (sql, st) ∷ es else e ∷ assign sql st es

unfoldable pub delete : Bytes → List (Bytes × PreparedStmt) → List (Bytes × PreparedStmt)
delete sql [] = []
delete sql (e ∷ es) = if same_text sql e.0 then es else e ∷ delete sql es

-- The first entry that the iteration meets, counted round the list.
unfoldable pub entry_at : ℕ → List (Bytes × PreparedStmt) → Option (Bytes × PreparedStmt)
entry_at n [] = none
entry_at zero (e ∷ es) = some e
entry_at (suc n) (e ∷ []) = some e
entry_at (suc n) (e ∷ f ∷ es) = entry_at n (f ∷ es)

-- `newStmtCache`
unfoldable pub new_stmt_cache : ℕ → StmtCache
new_stmt_cache max = record {
  max = if max == 0 then 64 else max;
  by_key = [];
  closed = [];
  seq = 0;
}

unfoldable pub get : Bytes → StmtCache → Option PreparedStmt
get sql sc = lookup sql sc.by_key

-- The eviction of `put`.
unfoldable pub evict : ℕ → StmtCache → StmtCache
evict choice sc = elim (entry_at choice sc.by_key) [
  | none ↦ sc
  | some (sql, st) ↦ record sc { closed = sc.closed ++ st.name ∷ []; by_key = delete sql sc.by_key }
]

unfoldable pub put : ℕ → Bytes → PreparedStmt → StmtCache → StmtCache
put choice sql st sc =
    let room = if leb sc.max (length sc.by_key) then evict choice sc else sc in
    record room { by_key = assign sql st room.by_key }

-- `takePendingClose`
unfoldable pub take_pending_close : StmtCache → List Bytes × StmtCache
take_pending_close sc = (sc.closed, record sc { closed = [] })

-- `nextName`
unfoldable pub next_name : (ℕ → Bytes) → StmtCache → Bytes × StmtCache
next_name base36 sc =
    let n = (sc.seq + 1) % 2 ^ 64 in (codes "s_" ++ base36 n, record sc { seq = n })

unfoldable pub invalidate : Bytes → StmtCache → StmtCache
invalidate sql sc = elim (lookup sql sc.by_key) [
  | none ↦ sc
  | some st ↦ record sc { closed = sc.closed ++ st.name ∷ []; by_key = delete sql sc.by_key }
]
