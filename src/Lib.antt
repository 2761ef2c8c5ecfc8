-- ===== src/Lib.antt =====
-- A model of the Tessera gallery server: a daemon that keeps voxel models with thumbnails, takes
-- signed uploads, votes, favourites, reports and admin actions over HTTP, and serves them.
--
-- Parts, with the files of the repository that they are translated from:
--   Config         src/tessera/config.py      the configuration and how it is loaded
--   Hydro          src/tessera/hydro.py       the guards in front of libhydrogen
--   Replay         src/tessera/replay.py      the table of used nonces
--   Signing        src/tessera/signing.py     signature headers, canonical message, verification
--   Db             src/tessera/db.py          the rows of the SQLite index
--   Moderation     src/tessera/moderation.py  visibility, resolving reports, auto-hide
--   Social         src/tessera/handlers_social.py   /vote, /favourite, /favourites, /report
--   Admin          src/tessera/handlers_admin.py    /admin/action, /admin/reports
--   Store          src/tessera/store.py       blobs by the hash of their bytes
--   Envelope       src/tessera/envelope.py    the upload format
--   Quota          src/tessera/quota.py       what an upload must pass
--   Upload         src/tessera/handlers_content.py  POST /upload
--   Content        src/tessera/handlers_content.py  GET /browse, /model and /thumb
--   RateLimit      src/tessera/ratelimit.py   the token buckets
--   Routes         src/tessera/http_server.py  signed_route around its seven handlers
--   Dispatch       src/tessera/http_server.py  setup, parse_request, _dispatch, the table of routes,
--                  _send and _refuse
--   ProxyProto     src/tessera/proxyproto.py  the PROXY protocol header
--   ReportTool     tools/tessera-reports      the moderation queue on the command line
--   Http, Json     the values that handlers take and return
--   Bytes, Common  byte strings and the helpers that the parts share
--   Tests          the theorems at concrete inputs
--
-- How the parts interact. Dispatch bounds the target and the declared length, finds the route and
-- asks RateLimit; only then it reads the body. A signed request is verified by Signing, which
-- writes the pair of key and nonce to the table of Replay. A handler then gets the key and the
-- body. It reads the body (Json, Envelope), checks bans and visibility or quotas, and runs its
-- statements on the tables of Db and the files of Store. Votes recount the counters of the model;
-- reports may hide it by the rule of Moderation; an admin action changes the visibility, closes
-- reports and may ban the author. tessera-reports does the same on the box itself, on the tables that
-- the daemon is using; ReportTool/Interleaved is about both of them together.
--
-- Correspondence. A table is the list of its rows, oldest first, and each SQL statement is the
-- function on lists of Common/Table that it stands for; a uniqueness constraint is a predicate
-- on the list. A handler is a function from the tables to the answer and the tables after it.
-- An exception that the code catches is a constructor of a fault type; one that it does not
-- catch is `exception`, and the tables are what the statements before it have left. The clock
-- is an argument `now`. A handler that reads the clock more than once reads the same value each
-- time. ℕ is unbounded as int is in Python; a number that SQLite cannot bind (2^63 or more)
-- raises. Social/Voting/Interleaving runs the statements of several threads one at a time,
-- since the connections have no open transaction; RateLimit/Threads does so with the operations
-- on the table of the limiter. Every function is by recursion on a list, a text or a number;
-- only the decimal digits of n take rounds, n + 1 of them, with which n is read back
-- (Bytes/Numbers/Decimal, ReportTool/Layout/Digits). ORDER BY is an insertion sort; where it
-- leaves the order of rows open, they stand in the order of the table.
--
-- Parameters. libhydrogen is a record of three functions (Hydro.HydroLib). json.loads behind
-- the UTF-8 decoding is `loads`, or its result, of type Loaded; json.dumps is `dumps`; the hash
-- of the blob store is `hasher`. urlsplit and parse_qs are `split_target`; `is_trusted` is the
-- test of ip_network; `is_float` tells whether float() reads a text; `clock` and `minute` are
-- time.strftime in tessera-reports. A Python float is a type W with the operations of
-- RateLimit.Floats.Float that the code uses. The bounds in RateLimit/Budget and Dispatch/Budget
-- suppose that these round as IEEE 754 has it (IsRounded): comparisons are exact, a result has
-- the sign of the exact one, and within the burst it exceeds the exact one by at most err. For
-- doubles and a burst of 2^k tokens a few times 2^(k-53) tokens are enough for err;
-- rounded_halves is a small instance that does round.
--
-- Not modelled: sockets, the scheduling of threads (a request is dispatched as a whole, with no
-- other thread in allow; only the statements of votes and the operations of the limiter on its
-- table are interleaved; dispatch_on takes what the call of the limiter came to, an exception
-- included), the reading of the configuration file and negative integers in it, schema
-- migration, the start and the end of the process (main.py is signals, a thread and the loop of
-- socketserver), file modes and temporary files, the reading of command lines and the --json
-- form of tessera-reports list, the other tools and the installation scripts. A text is a
-- sequence of Unicode scalar values, so lone surrogates, which json.loads can make, do not
-- occur.
pub mod Common
pub mod Bytes
pub mod Config
pub mod Hydro
pub mod Replay
pub mod Signing
pub mod Json
pub mod Http
pub mod Db
pub mod Moderation
pub mod Social
pub mod Admin
pub mod Store
pub mod Envelope
pub mod Quota
pub mod Upload
pub mod ProxyProto
pub mod Routes
pub mod Dispatch
pub mod RateLimit
pub mod Content
pub mod Tests
pub mod ReportTool
