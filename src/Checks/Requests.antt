-- ===== src/Checks/Requests.antt =====
-- Requests to the query endpoints.
use padma.Base.{none, List, map, select, ◌≡◌, refl, true, Text, codes, [], ◌==◌, if◌then◌else◌}
use padma.Errors.{ok, Result, err, reported}
use padma.Database.Rows.{Time}
use padma.Platform.Http.{Request, query_time}
use padma.Query.Cursor.{decode_cursor}
use padma.Query.Handlers.{list_payments, serve}
use padma.Query.Handlers.Answers.{IsSmall, serve-IsSmall}
use padma.Query.Handlers.BadRequests.{Rejects, malformed, serve-Rejects}
use padma.Merchant.Handlers.{settlements_route}
use padma.Api.{Libraries, on_merchant, serve as serve_api}
use padma.Api.Reads.{OnlyReports, get-OnlyReports}
use padma.Checks.Samples.{world, digest}
use padma.Checks.Access.{outside, request as by_key}
use padma.Checks.Amounts.{fibertypes}
use padma.Checks.Gateway.{pgx}
use padma.Checks.Reading.{clock, ledger}
use padma.Database.{World, wrap, query, statement, attempt}
use padma.Query.Repo.{StatRow, clause, ts_range}
use padma.Query.Lists.{Group, groups, stat_of, stats_payments, payment_ts}
use padma.Query.Stats.{Tallies, stats_payments-Tallies}

abbrev parse_rfc3339 : Text → Result Time
parse_rfc3339 s = err (reported (codes "cannot parse"))

-- a parameter `from` that is no time, and a limit that is too large
abbrev params : Text → Text
params name =
    if name == codes "from"
    then codes "yesterday"
    else if name == codes "limit"
    then codes "100000"
    else []

abbrev request : Request
request = record { authorization = []; query_param = params; url_param = λ name. []; body = [] }

serve-IsSmall_example :
    IsSmall (serve fibertypes pgx clock parse_rfc3339 list_payments request world)
serve-IsSmall_example = serve-IsSmall fibertypes pgx clock parse_rfc3339 list_payments request world

malformed_test : malformed fibertypes pgx clock world parse_rfc3339 list_payments request ≡ true
unfolding decode_cursor ◌==◌ query_time
malformed_test = refl

serve-Rejects_example :
    Rejects true world (serve fibertypes pgx clock parse_rfc3339 list_payments request world)
unfolding decode_cursor query_time ◌==◌
serve-Rejects_example = serve-Rejects fibertypes pgx clock world parse_rfc3339 list_payments request

abbrev libraries : Libraries
libraries = record {
  merchant = outside;
  clock = clock;
  parse_rfc3339 = parse_rfc3339;
  digest = digest;
  decode_webhook = λ body. err (reported (codes "EOF"));
  marshal_ping = λ id. id;
}

get-OnlyReports_example :
    OnlyReports world.db
      (serve_api libraries (on_merchant settlements_route) (by_key (codes "k1")) world).1.db
get-OnlyReports_example =
    get-OnlyReports libraries (on_merchant settlements_route) (by_key (codes "k1")) world refl

abbrev stats : Result (List StatRow) × World
stats = stats_payments fibertypes pgx none none ledger

abbrev found : List StatRow
found = map (stat_of fibertypes pgx) (groups ledger.db.payments)

stats_test : stats ≡ (ok found, ledger)
unfolding stats_payments wrap query statement attempt clause ts_range
stats_test = refl

stats_payments-Tallies_example :
    ((gs : List Group) × (found ≡ map (stat_of fibertypes pgx) gs)
      × Tallies (select (clause (ts_range payment_ts none none [])) ledger.db.payments) gs)
    × (ledger.db ≡ ledger.db)
stats_payments-Tallies_example =
    stats_payments-Tallies fibertypes pgx none none found ledger ledger stats_test
