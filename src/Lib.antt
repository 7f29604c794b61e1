-- ===== src/Lib.antt =====
-- The control plane of a VPN: a Python service that keeps clients, nodes and inbounds in data.json,
-- puts the clients onto the 3x-UI panels of the nodes, serves each client a subscription of links,
-- refreshes feeds of links from elsewhere, and alerts when a node fails.
--
-- The files and the code that they model (paths under src/vpn_control_plane):
-- - Data: data/models.py (Models: the records; Validation: the validators; Reference: references to
--   feeds; Catalog: inbounds by tag, the tags of a client) and data/store.py (Store: what is
--   validated and written, as records; Templates: variables of the environment; File: the methods
--   on the file on disk).
-- - Provisioning: provisioning.py. `ensure_client_locked` is a run over the panels (Xui.Panel, an
--   interface with laws) and data.json; `persist` writes the client's record. Manual is for the
--   clients of administrators. Runs lets runs interleave, as steps under the lock objects that
--   `_client_lock` hands out.
-- - Sync: sync/service.py (Plans: which clients go where; Service: the reconciliation).
-- - Subscription: subscription/service.py (Token, Links, Traffic, Render, View, Build for `build`, and
--   Pages for the three responses).
-- - ExternalSubscriptions: external_subscriptions (Parser; Slug; Cache: references;
--   CacheFile: the file of resolved inbounds; Service: the refresh; Service/Runs: it over the file).
-- - Crons: crons (Expression: parsing; Next: the next time; Loop: the loop that every job runs on,
--   as a number of rounds; Jobs: which jobs there are).
-- - Xui: xui/client.py. Panel is what the services see; Client sends a request over an HTTP client
--   that is an argument and reads the answer, Operations are the methods and make a Panel of them,
--   Payload is what an update sends, and Answers says when a change was accepted.
-- - Http: http/routes.py (Routes, with Backup and Order). Backup: backup (archives and Nodes).
-- - Telegram: telegram/bot.py (Access: who may do what; Bot and Bot/Commands: the handlers and the
--   dispatcher, on one state of panels, chats and data.json).
-- - Monitoring: monitoring (Detectors, State, Service, Notifier). Reports: reports/telegram.py.
-- - Settings: config.py (texts, routes, urls; Routes: theorems on routes). Local:
--   local/init-nodes.py, from the repository's root.
-- - Prelude, Text, Dict, Regex, Json and Action hold what they share: a text is the list of its code
--   points, a dict is the list of its pairs in order of insertion, and a method that reads and
--   writes a state and may raise is an `Action`. Tests and Provisioning/Examples hold examples.
--
-- Data/File reads and writes data.json as text on a disk, with its templates and with calls that
-- fail. Elsewhere data.json is records: a run reads the records that the text gives with its
-- templates resolved, and what it writes are records, where a write does not fail. Provisioning,
-- Sync and Subscription read the catalog of Data; Subscription resolves references by
-- ExternalSubscriptions.
--
-- Arguments stand for what the program takes from libraries: regular expressions, floats, lower
-- case, url functions, base64, HMAC, the calendar, generated ids, and the calls of panels, feeds
-- and the messenger. What a theorem assumes of them is among its hypotheses.
--
-- Bounds: the search for a free slug has fuel for one more round than there are slugs in use;
-- the search for the next time of a schedule has the rounds of the code;
-- `range_by` has fuel for each number up to its end. The loop of the jobs has no end, so its
-- theorems are for any number of rounds. Times are numbers of one unit.
--
-- Not modelled: locks of files, the start and the end of the application (app.py), the fields of the
-- settings, how the web server matches a path, the pictures and the texts that the bot sends, the QR
-- images, packing and encrypting archives, and asyncio: but in Runs and Loop, tasks follow one
-- another.
pub mod Prelude
pub mod Text
pub mod Dict
pub mod Regex
pub mod Http
pub mod Json
pub mod Action
pub mod Data
pub mod Xui
pub mod Provisioning
pub mod ExternalSubscriptions
pub mod Settings
pub mod Crons
pub mod Sync
pub mod Subscription
pub mod Backup
pub mod Telegram
pub mod Monitoring
pub mod Local
pub mod Reports
pub mod Tests
