-- ===== src/Lib.antt =====
-- A-Stock Lens: a verification library.
--
-- The program screens Chinese stocks in stages and then judges single trades. A cold start fetches the
-- history of every listed stock, in bounded parallel, and keeps a checkpoint that a crash leaves
-- usable; a quality gate judges the bars; the universe names the stocks a scan considers. Factors of a
-- stock are computed from its bars and scored per strategy by their rank among all stocks; a strategy
-- result in the top tenth that meets its absolute rule becomes a qualification; the market validation
-- and the signal detector judge the stock on its factors; the selection policy picks candidates among
-- the qualified ones that neither of them vetoes, and the builder assembles a record of each; a trader
-- tracks candidates on a watchlist, and asks the trade gate about an intended trade. The gate's engine
-- scores the trade and decides PASS, WAIT or NO_TRADE; the service keeps every step in a ledger that is
-- only added to.
--
-- What models what:
--   Base, Number        Lists, texts, sorting, integers, dictionaries, errors; floats as an interface.
--   Domain              src/astock_lens/domain/enums.py and models.py, and the records of
--                       factors/contracts.py, strategies/contracts.py, qualifications/models.py;
--                       Domain/Lineage has the versions of a lineage (_versions).
--   Bootstrap           src/astock_lens/data/: Scheduler is bootstrap_scheduler.py
--                       (fetch_symbols_bounded), Checkpoint is bootstrap_checkpoint.py, Landing
--                       is what land_bar_chunks of bootstrap.py writes to the checkpoint.
--   Quality             src/astock_lens/data/quality/gate.py (DailyBarQualityGate.check, valid_bars).
--   Universe            src/astock_lens/universe/: builder.py (UniverseBuilder.build) and prefilter.py.
--   Factors             src/astock_lens/factors/builtin.py; Evidence is market/benchmark.py,
--                       market/evidence.py and market/industry.py; Valuation is
--                       factors/valuation.py (ValuationFactor.compute).
--   Calendar            src/astock_lens/calendar/china.py (ChinaTradingCalendar).
--   Strategies          src/astock_lens/strategies/: Scoring is scoring.py (percentile_ranks), Scorer
--                       is percentile_scorer.py (WeightedPercentileScorer).
--   Qualifications      src/astock_lens/qualifications/rules.py (FactorThresholdRule.evaluate) and
--                       common.py (build_qualification).
--   Market/Validation   src/astock_lens/market/validation.py (MarketValidator.validate).
--   Market/Regime       src/astock_lens/market/regime.py (MarketRegimeDetector.detect).
--   Market/Signals      src/astock_lens/signals/detector.py (DefaultSignalDetector.detect).
--   Candidates          src/astock_lens/candidates/: the evidence; Policy is
--                       RepresentativeCandidatePolicy.select, Builder is CandidateBuilder.build.
--   Watchlist           src/astock_lens/watchlist/state_machine.py (open_entry, transition); Store is
--                       watchlist/store.py with the watch command of cli/lifecycle_commands.py.
--   TradeGate           src/astock_lens/trade_gate/: Intent and Records (models.py, profiles.py),
--                       Scoring, Veto, Engine, Replay (the files of those names), Ledger (store.py),
--                       Service (service.py).
--   Tests               Runs on concrete data.
--
-- How the code is modelled. An exception is an error value; text that is only shown is a note that
-- names what it says and the values that it shows, or is left out where the rest of the record tells
-- it. State is passed explicitly: a directory of JSON files is a list of names with documents, the
-- name of a file being the one that the source gives it, and a statement of the service maps a ledger
-- to a result and a ledger, so that what was written before an exception stays. JSON, CSV and pydantic
-- are an argument, a codec whose law is that a dumped record loads as itself (in the ledger, of every
-- kind but the evaluation, whose context holds objects that are read back as dictionaries); the
-- context builder and the audit adapter of the service are arguments without laws; the hash of a
-- configuration, new ids and times are arguments. Of the processes that the scheduler runs there is
-- what each answers in a round, and what the clock shows, an argument without laws but where a theorem
-- says that the clock moves. A crash of the cold start forgets what the process had in memory and
-- keeps the disk. Floats are an argument, the record Double of Number; where a theorem needs an order
-- it asks for IsOrdered, which the finite doubles satisfy and NaN does not, and the order of the
-- candidates asks that negation reverses it. str.lower is that of ASCII, and sorting texts is by code
-- points. A datetime is aware, with a wall clock and an instant, or naive; a date is its ordinal, and
-- a step beyond the first or the last one is an OverflowError. Counts are natural numbers.
--
-- Fuel. The rounds of the scheduler run on fuel, since a silent worker is waited for: the theorem on
-- its end gives a bound that is enough, by the stocks and the deadline. percentile_ranks runs on as
-- much fuel as there are values, of which each run of equal ones takes one at least. The searches of
-- the calendar have 60 rounds, as in the source. Every other loop of the source is over a given list.
--
-- Not modelled: the providers, the normalisation and the storage of data, the SQL stores, the factors
-- of statements, the scanners that wrap the scorer, the pipelines, the command line but for watch, the
-- API, the reports, the loaders of YAML files, and the searches of the ledger that only read.
pub mod Base
pub mod Number
pub mod Domain
pub mod Watchlist
pub mod Bootstrap
pub mod Calendar
pub mod Candidates
pub mod Factors
pub mod Universe
pub mod Quality
pub mod Strategies
pub mod TradeGate
pub mod Qualifications
pub mod Market
pub mod Tests
