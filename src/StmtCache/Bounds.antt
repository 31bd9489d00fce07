-- ===== src/StmtCache/Bounds.antt =====
-- `put` of pg2json/stmtcache.go: the bound of the cache, its entries and its Close queue.
use pg2json.StmtCache.{StmtCache}
