-- ===== src/Lib.antt =====
-- A verification library for the trading core of the repository.
--
-- The program decides whether a trade may be opened and how large it may be (app/risk/manager.py),
-- keeps a paper account (app/trading/paper_broker.py) whose open positions a position manager protects
-- (app/trading/positions.py), and sends real orders under a fixed profile and with the consent of an
-- administrator (app/trading/controlled_live.py): a preview sizes the order, the repository stores the
-- proposal and lets one order at a time be claimed, and the service executes it through the gateway of
-- the exchange and installs its protection, or closes it at once. A profit protector
-- (app/trading/profit_protector.py) watches the open positions and moves their stops. A shadow engine
-- (app/shadow/engine.py) trades a frozen strategy on paper and keeps a journal in a database.
--
-- Files and code
--   Prelude        shared names; Errors holds the exceptions, Actions the methods of an object that may
--                  raise (what was written before an exception stays written), Dict a dict in insertion
--                  order, Actions.Preserve the rules by which a property passes through a method.
--   Decimal        the decimal module of Python with the default context: 28 digits, half to even. A
--                  number is a coefficient and the number of its decimal places.
--   Domain         app/domain/models.py
--   Exchange       app/exchanges/models.py
--   Risk           RiskManager.approve of app/risk/manager.py (Manager; Limits and Sizes are its
--                  proofs), GlobalPortfolioRiskManager of app/risk/portfolio.py (Portfolio).
--   Broker         PaperBroker of app/trading/paper_broker.py (Account: the fields and the account;
--                  Orders: the operations; Calls: sequences of calls) and PositionManager of
--                  app/trading/positions.py (Protection).
--   Live           app/trading/controlled_live.py: Profile holds its data, Preview build_manual_preview,
--                  Records the rows of app/db.py, Repository, Claims and Outcomes the methods of
--                  ControlledLiveRepository, Calls any sequence of its transactions, Locks the flags of
--                  the state row, Execution, Emergency and Service the methods of ManualExecutionService.
--   Ledger         app/trading/execution_store.py: Attempt, Memory and Sql the two stores, Store the
--                  protocol that clients use, Spec the partial map that both refine, Keeps and Once what a
--                  sequence of calls keeps, Race the interleaving of claims.
--   Engine         app/trading/multi_exchange.py (Gates the guards, Execute the rest, Calls any sequence
--                  of calls) and what it is built from: Market app/exchanges/models.py, Health
--                  app/exchanges/health.py, Positions app/exchanges/portfolio.py, Router
--                  app/exchanges/market_data.py, RateLimit app/exchanges/rate_limit.py.
--   Protector      app/trading/profit_protector.py: Costs and Momentum the functions that measure a
--                  position, Decision evaluate_protection, Store PositionProfitRepository, Ticker
--                  LocalPositionProfitProtector.on_ticker, Owners and Sync its sync and the messages of the
--                  socket, Moves any sequence of messages and syncs.
--   Shadow         app/shadow/repository.py: Records the rows of app/db.py, Repository the journal of
--                  candles, decisions and trades (Rules any sequence of its transactions), Collector the
--                  lease of the process, Watch the health of the exchanges, the events and the daily
--                  snapshots, Reports what the reports read, Metrics shadow_metrics. Of
--                  app/shadow/engine.py, ProspectiveShadowEngine: Market its quotes and costs, Orders the
--                  paper orders, which the risk manager approves, Exits how a position is closed, and
--                  Engine a cycle (Summary its end).
--
-- How the code is read
--   - A decimal is finite and has no positive exponent: a result with one is multiplied out, which
--     changes no comparison and no later rounded result. Division by zero is the exception that the
--     context traps. The loops run over lists, so no fuel is needed but for counting the digits of a
--     number, whose count starts at a bound that is never reached, and for the attempts of the rate
--     limit, which the code counts itself.
--   - A method is a function of the object to its result, or the exception, and the object after it. A
--     transaction of the repository makes its checks before it writes, so that an exception leaves the
--     database as it was. The unique columns that a new row would violate are checked where the code
--     commits.
--   - Clocks, uuid4 and the answers of the gateway are inputs; SHA-256 and json.dumps stand behind the
--     records Digests and Texts, which are parameters. The texts of rejections are the constructors of
--     a data type.
--   - The calls that change the exchange account are recorded in the order in which they are sent.
--
-- Not modelled: the network clients, the Telegram bot, the HTTP interface and the settings, which are
-- input and output; the updated_at columns of the live records; the loading of profiles from files; and
-- the parts of the program that no file above names: the scanner, the autonomous trader, the backtest
-- and the strategy research, whose answers to the shadow engine are inputs, and the processes that run
-- it. Numbers are stored as they are computed: the columns of the database round them to ten places.
-- Foreign keys are not checked.
pub mod Prelude
pub mod Decimal
pub mod Domain
pub mod Exchange
pub mod Risk
pub mod Broker
pub mod Live
pub mod Protector
pub mod Ledger
pub mod Engine
pub mod Shadow
