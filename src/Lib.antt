-- ===== src/Lib.antt =====
-- The VIX75 trading platform: Python services that hand messages on through Redis streams. Bars become
-- features; the signal service turns a feature row into a signal; the risk service sizes the signal or
-- refuses it; the execution service sends the order to MetaTrader 5. A gateway stands before their
-- HTTP routes.
--
-- Which file models which part:
--   Schemas                 packages/vix_core/vix_core/schemas.py, the records that the parts exchange;
--                           Schemas/Uuid is uuid_from_hex
--   Correlation             packages/vix_core/vix_core/correlation.py
--   Zones                   packages/vix_core/vix_core/zones.py, ZoneEngine.update and update_all;
--                           Zones/Lifecycle is the state machine over runs of bars
--   Scoring                 packages/vix_core/vix_core/scoring.py, calculate_score; Scoring/Gates
--   SignalService/Engine    services/signal-service/app/engine.py, SignalEngine.evaluate; Fires and
--                           Stops say what a fired signal rests on and where its stop stands
--   SignalService           services/signal-service/app: Features is db.py, Consumer is consumer.py
--                           (_handle, _market_context, drain); Publishes says what it publishes and
--                           Handover what the risk and the notify service make of it
--   Sizing                  packages/vix_core/vix_core/risk.py, compute_lots; Margin, Bounds and
--                           Outcomes are its margin loop, its bounds and its other results
--   RiskService             services/risk-service/app: Exposure is exposure.py, Validator validator.py,
--                           Consumer the gates of consumer.py (RiskConsumer._decide) with sizing.py,
--                           and Handler its _handle and drain; Gates, Safety, Positions and Outcome
--                           are about those
--   Execution               services/execution-service/app: Executor and Attempts are mt5_executor.py
--                           (MT5Executor.execute), Trades is db.py, Orders is consumer.py up to the
--                           entries it writes (_parse_order), and Consumer the rest of it (_handle
--                           and drain); Retry, Rows, Once, Batch and Lost are about those. Close is close_position,
--                           Trades/Closing the open trades of db.py, Reconciliation is
--                           reconciliation.py (Reconciler.run_once) and Routes is routes.py (the
--                           manual close); Settled, Spared and ManualClose are about those
--   DataService/Ingest      services/data-service/app/ingest.py, Ingestor.cycle, with upsert_bars of db.py;
--                           Ingest/Loss says which bars are stored
--   FeatureService          services/feature-service/app: Compute is snapshot_from_bars of compute.py, and
--                           Consumer is consumer.py (_handle, process_bar_event, _dead_letter)
--   DataService/Backfill    services/data-service/app/backfill.py with iter_history_chunks of
--                           mt5_client.py; Stored is about them
--   Mt5                     packages/vix_core/vix_core/mt5_client.py: connect, and Reading what it reads;
--                           Connecting is about the retries
--   MlService/Worker        services/ml-service/app/worker.py, InferenceWorker._handle, with
--                           _canonical_order of hmm.py; Regime is about its handover to the signals
--   Logging                 packages/vix_core/vix_core/logging.py, the processors of events; Redaction
--   NotifyService           services/notify-service/app: Telegram is telegram.py, Consumer is consumer.py
--                           with lifecycle.py; Trail is about the audit trail, and Closed
--                           about the text of a closed trade
--   Gateway                 services/api-gateway/app: Auth is auth.py, Proxy proxy.py, App a protected
--                           request through main.py, over the types of Http; Exchange, Forwarding and
--                           Guard are about those
--   Gateway/Limiter         services/api-gateway/app/rate_limiter.py; Window and Bound
--   Base, Float, Json, Redis   shared helpers, and the interfaces below
--   Tests                   runs, and the interfaces at concrete types
--
-- An object of the source is a record, and a method that changes it a function that returns the changed
-- record. An exception is a `raise` of Base/Result; a handler that lets one go on returns its state
-- beside it. A message batch is a list, and an exception ends it, as in `drain`.
--
-- What is not code of the repository is a parameter. Float is the interface of Python's floats other
-- than NaN, with its order laws where a theorem needs them and no law of rounding. Json is Python's json
-- module on objects of plain values. Redis has text values, hashes and streams, and the limiter has
-- sorted sets, each with the documented effects of the commands. Terminal is the MT5 package over a
-- state of its own. Pydantic's parsers, uuid4 and the clock are arguments.
--
-- A loop on fuel is the one of compute_lots that takes off a volume step while the margin is too
-- large. Sizing/Margin ranks the lots that are left, each step lowers the rank, and fuel above the rank
-- is enough. A backfill runs on fuel too: each full page moves the position on, so the number of rows
-- that the terminal has is enough. The retry loop counts the rounds left, three of them in `execute`.
--
-- Commands to Redis and statements to the database succeed here, except that the write and the
-- publication of the ingestion, the audit row of the notify service and the query for the bars of a
-- feature window may fail, and one consumer runs at a time. The JWT library, Starlette's headers and the
-- services behind the gateway are interfaces or arguments; so is whether Telegram takes a message. The
-- series of a feature window are an argument, since numpy and scipy compute them. Not modelled are log
-- lines and metrics, connecting and polling, the training of the models, the detection of zones, charts,
-- the entry points of the services and the scripts.
pub mod Base
pub mod Float
pub mod Json
pub mod Redis
pub mod Schemas
pub mod Correlation
pub mod Logging
pub mod Sizing
pub mod Gateway
pub mod RiskService
pub mod Zones
pub mod Scoring
pub mod FeatureService
pub mod SignalService
pub mod Execution
pub mod Mt5
pub mod MlService
pub mod DataService
pub mod NotifyService
mod Tests
