-- ===== src/Lib.antt =====
-- VehiNode: a server that collects telemetry from vehicles, and the agents that send it.
--
-- The server keeps its data in a database. `Models` has a record for each table (the models.py of
-- each package of backend/app) and `Models.Database.Db` a list of rows for each of them. A handler
-- of the HTTP API is a function from the database and the request to a `Result` (`Prelude.Results`):
-- an error, after which `get_db` drops the transaction, so that the database stays as it was, or the
-- answer and the database that the handler commits. `Prelude.Table` has the statements that the
-- services run on a table, `Json` the JSON values that rows hold.
--
-- * `Access` is backend/app/access: who may view or operate a vehicle. Every handler that names a
--   vehicle goes through `authorize_vehicle`.
-- * `Users` is backend/app/users: the administration of accounts.
-- * `Jobs` is backend/app/jobs/services.py: the queue from which workers claim jobs.
-- * `Worker` is backend/app/worker.py and what backend/app/hooks/runtime.py gives a child process:
--   a claimed job is run in a child, and its result is stored.
-- * `Telemetry` is backend/app/telemetry: an agent uploads a batch of samples, which update the
--   current state of the vehicle and queue the executions that `Jobs` hands to `Worker`.
-- * `Profiles` is backend/app/vehicle_profiles/services.py: how an agent decodes the frames of its
--   vehicle, and the versions by which it learns of a change.
-- * `Devices` is backend/app/devices: the agents, from their enrollment to their removal.
-- * `Auth` is backend/app/auth/dependencies.py, services.py and routes.py: how accounts are registered
--   and signed in, who a request comes from, and how a session ends. Its answers are the `user` and the
--   `device` that the handlers of the other parts receive.
-- * `Hooks` is backend/app/hooks/services.py and routes.py: the hooks, their revisions, and the
--   executions that administrators ask for.
-- * `Agent` is agent/vehicle_agent: queue.py, runtime.py and transport.py. Its rounds upload to
--   `Telemetry` over a network that may lose a request or its answer.
-- * `Configuration` is config.py of agent/vehicle_agent: the configuration that an agent keeps.
-- * `Can` is providers/obdlink.py, capture.py, profile_decoder.py and providers/raw_can.py of
--   agent/vehicle_agent: the frames that a vehicle sends and the metrics that a profile makes of them.
--   `Text` has Python's operations on the lines of a protocol.
-- * `Obd` is providers/standard_obd.py of agent/vehicle_agent: the answers to standard OBD requests.
-- * `History` is the chart of backend/app/history/routes.py, without its list of metric names.
-- * `Dashboards` is backend/app/dashboards/routes.py: the layouts that each user keeps.
-- * `Vehicles` is backend/app/vehicles: the vehicles themselves, and their removal with all that refers
--   to them.
-- * `Photos` is backend/app/vehicles/photos.py: the checks of an uploaded image.
--
-- Conventions. An identifier (a UUID) is a number, an instant the number of microseconds of UTC
-- since a fixed epoch, a double its 64-bit pattern. An operation reads the clock once, where the
-- source may read it several times in a row, and receives the reading, the identifiers that it
-- hands out and whatever other transactions commit meanwhile as arguments. Rows are read from the
-- database as it stands; SQLAlchemy's identity map is not modelled, nor is the advisory lock of
-- backend/app/worker.py, in place of which `Run.meanwhile` is any function. The payloads of jobs and
-- triggers and the value of the access setting are typed records, as only the modelled code writes
-- them. Columns that no modelled operation reads, like the time at which a trigger was created, are
-- left out, and so are the checks that pydantic makes of single fields, but for those of an upload of
-- telemetry (`Telemetry.Schemas`). What a foreign key deletes or
-- sets to null is written out in the operation that deletes the row. Every loop of the source that is
-- modelled runs over a finite list and is structural recursion. Two have a bound on their rounds:
-- `Text.hex_number`, one more than the number that it prints, which has fewer digits, and
-- `Photos.Jpeg.jpeg_scan`, one more than the number of bytes, of which every round reads one.
--
-- Not modelled: the download of photos, the table of history entries, the secret store, the OIDC client, the
-- settings, the middleware, the web interface, the child process in which a hook runs, and the agent's
-- serial, Bluetooth and network drivers. They are input and output, calls of libraries, or presentation.
-- Nor is the parser of NMEA sentences.
pub mod Prelude
pub mod Json
pub mod Text
pub mod Models
pub mod Access
pub mod Users
pub mod Jobs
pub mod Worker
pub mod Telemetry
pub mod Profiles
pub mod Devices
pub mod Hooks
pub mod Auth
pub mod Agent
pub mod Can
pub mod History
pub mod Dashboards
pub mod Vehicles
pub mod Photos
pub mod Configuration
pub mod Obd
pub mod Fixtures
