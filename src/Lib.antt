-- ===== src/Lib.antt =====
-- coredns-ez: CoreDNS plugins that keep authoritative zones in memory and in a store, change them by
-- RFC 2136 updates, and pass them on by AXFR and IXFR.
--
-- The parts and how they interact. dns-update-persistent owns a writable zone as a flat list of
-- records. A commit of it goes through ixfr, whose journal keeps the differences between generations
-- and answers IXFR. secondary-persistent is on the other side: it reads such an answer, applies it
-- to its copy and stores the result. split-horizon-cache keeps the replies of whatever plugin follows
-- it, apart for each kind of client, and internal/cachegen lets a change of zones or views outdate them.
--
-- Dns.antt has the resource records and protocol numbers that every plugin reads, and the functions
-- of github.com/miekg/dns as the parameter `Dns`. A record is an SOA or another one with its rdata
-- as text; strings.ToLower is modelled on ASCII. Dns/Serial.antt has the RFC 1982 comparisons of
-- dns-update-persistent/zone.go (serialGreater), ixfr/journal.go (serialNewer) and
-- secondary-persistent/transfer.go (less). uint32 is a natural number with its wrap-around written
-- out.
--
-- JournalText.antt is ixfr/persist.go: writeJournal and parseJournal, over lists of code points.
-- JournalText/Decimal.antt has %d and strconv.ParseUint; the fuel of `decimal` is the number itself,
-- which is never smaller than the number of its digits less one. JournalText/Scan.antt has the parts of
-- bufio.Scanner and strings that the parser calls.
--
-- Journal.antt is ixfr/journal.go: reconcile, commit and answer, with the backend of
-- ixfr/ixfr.go as the record `JournalBackend` over a state of its own. A commit takes the journal
-- and the store and returns both.
--
-- Secondary/Xfr.antt is secondary-persistent/ixfr.go without the network: classifyXFR, parseIXFR
-- with its parser state, applyIncrements. Secondary/Xfr/Stream.antt joins it to the journal's
-- streams.
--
-- Secondary/Persist.antt is secondary-persistent/persist.go from enqueuePersist to finishPersist: what
-- a worker does between two points at which others can be seen is one call of `work`, and
-- Secondary/Persist/Steps.antt has every interleaving as a step relation.
--
-- Secondary/Catalog.antt is secondary-persistent/catalog.go: which zones a catalog brings, resets, moves
-- and removes. A *file.Zone has a number for its identity and its records for Apex and Tree.
-- Secondary/Origins.antt is the part of secondary-persistent/runtime.go that starts and stops zones for
-- the API, and Secondary/Primary.antt is shouldTransfer and transferIn of
-- secondary-persistent/transfer.go, with what the masters answer and the two transfers as parameters.
--
-- Ixfr.antt is ixfr/ixfr.go around the journal. Update.antt is dns-update-persistent: Update/Zone.antt
-- is zone.go; Update/Prereqs.antt, Update/Prescan.antt and Update/Apply.antt are the passes of
-- update.go; Update/Commit.antt is commitLocked and serveUpdate with the state of the plugin, and with
-- the panic of persistUpdated's log line as an outcome (`Persisted`, `Ending`);
-- Update/Http.antt is apply.go and construct.go. The view that file.File serves is the list of records
-- that it was built from, and whether it can be built is a parameter, as are the store and the
-- journal's store.
--
-- Zonereg.antt is internal/zonereg/zonereg.go, with plugin.Zones.Matches as a parameter.
--
-- Admin/Limiter.antt is admin/ratelimit.go, with a bucket of golang.org/x/time/rate as a parameter.
-- Admin/Filter.antt is admin/filtereng.go, and Admin/Filter/Parse.antt the patterns and lists of
-- admin/filterparse.go, with the functions on labels of github.com/miekg/dns as the parameter `Labels`. The
-- loop over the parents of a name has as much fuel as the name is long, and each parent is shorter.
-- Admin/Views.antt is serveWithNext of admin/views.go with what it calls: which zone, view or plugin answers a
-- query. It asks Update/Zone.antt what a zone answers and Admin/Filter.antt what is blocked, and gives
-- Cachegen.antt the label of a client. The plugin's maps are association lists, and the ACLs and
-- networks are what the database gave; addresses and networks are the parameter `Network`.
--
-- Cachegen.antt is internal/cachegen/cachegen.go: the epoch, which counts the changes of zones and
-- views, and the label of a client's address. Its reader is the cache.
--
-- Cache.antt is split-horizon-cache: CoreDNS's cache with the client's part in each key.
-- Cache/Message.antt has the questions and messages, and the tests of cache.go on them
-- (cacheResponseType, answerHasType, canonicalName, usableAnswer). canonicalName loops until a name
-- repeats; `walk` has fuel, two rounds more than there are records, which is enough since each round
-- follows a record of another name. Cache/Keys.antt is key, hash and bucketOf; FNV-1 is written out. Cache/Item.antt
-- is item.go with filterRRSlice of dnssec.go. Cache/State.antt is the record Cache with its
-- configuration, over the two stores of github.com/coredns/coredns/plugin/pkg/cache, which may evict.
-- Cache/Writer.antt is
-- computeTTL, set and WriteMsg of ResponseWriter, and Cache/Verify.antt that of
-- verifyStaleResponseWriter. Cache/Lookup.antt is getIfNotStale and exists, Cache/Handler.antt is
-- ServeDNS with what it calls, and Cache/Handler/Tasks.antt has the refreshes: a goroutine is a task
-- that ServeDNS returns and that runs later on the state at that time. The next plugin is a function
-- that gives the replies it writes. What CoreDNS and the standard library do (response.Typify,
-- Request.Match, dnsutil.MinimalTTL, the stores, Zones.Matches, freq.Freq, net.ParseIP and the threshold for
-- prefetching, which is a floating-point number) is the record `Library`. Times are nanoseconds.
--
-- Copies (dns.Copy) are values and do nothing here. Metrics and logs are left out. A mutex makes each
-- method one step. Not modelled: the HTTP API and its store, DNSSEC signing, the cluster, the command line,
-- the webhook and the loop of transfers with its timers.
mod Prelude
pub mod Dns
pub mod JournalText
pub mod Journal
pub mod Ixfr
pub mod Secondary
pub mod Update
pub mod Zonereg
pub mod Cachegen
pub mod Cache
pub mod Admin
mod Tests
