-- ===== src/Lib.antt =====
-- A model of redshift_connector, the Python driver of Amazon Redshift, and its correctness.
--
-- The driver talks to the server in messages: a byte for the kind, four bytes for the length and the
-- data. `Connection` (redshift_connector/core.py) writes requests to a socket and reads the answers in
-- a loop that hands each message to a handler; the handlers keep the state of the connection and of the
-- cursors (redshift_connector/cursor.py). Before a query is sent its placeholders are numbered by
-- `convert_paramstyle`, and the columns of the rows that come back are read by the functions of
-- `pg_types` (redshift_connector/utils/type_utils.py). `Connection.execute` keeps the statements that
-- it has parsed in caches, for each paramstyle and process; the methods of the cursor and of the
-- connection are calls of it.
--
-- The files:
--   Prelude            numbers, lists, results, actions on a state, texts and dicts
--   Wire               struct's formats, `create_message`, the header (core.py, type_utils.py)
--   Paramstyle         `convert_paramstyle` as a scanner; Template says what a query means,
--                      Template/Scan that the scanner does it
--   Types              `pg_types`, its readers (Recv), the table by protocol version (Protocol),
--                      the types of integer parameters (Params), the values of parameters and their
--                      functions (Args), with arrays (Args/Arrays, utils/array_util.py; Args/Inspect)
--   Interval           the class `Interval` (interval.py) and its reader
--   Connection         the state; Sending, Auth, Status, Rows and Copy hold the handlers `handle_*`
--   Connection/Messages  `handle_messages`, `handle_messages_merge_socket_read`, CommandComplete
--   Connection/Execute   `Connection.execute`; Requests builds its messages, Tracking, Numbers and Updates are
--                      about the caches, Invariant and Sent about the whole
--   Connection/*/Kept  what each group of handlers leaves as it was; Coherent says what holds
--   Cursor             the fetch methods (cursor.py)
--   Session            the methods of the cursor and of the connection, but for `__init__`; Tpc is the
--                      two-phase commit, Bulk `insert_data_bulk`, Startup `Connection.__init__`
--                      (Params and Connect belong to it), Reachable all of them together
--   Iam                `redshift_connector.connect` up to the call of Connection (__init__.py): Properties and
--                      Serverless (redshift_property.py), AuthProperties (idp_auth_helper.py), Plugins
--                      (native_plugin_helper.py, auth/aws_credentials_provider.py), CacheKey and
--                      ClusterCredentials (iam_helper.py); Secured and Channel are about TLS, Obtained,
--                      Fresh, SameKey and Reuse about the credentials, Merge about authentication
--                      profiles, Reads about actions that only read
--   Iam/Saml           SAML assertions (plugin/saml_credentials_provider.py): Assertion and Provider are the
--                      code; Roles, Refresh, Claims and Cached are about it
--   Tests              concrete runs
--
-- Functions have the names of the source in lower case: `handle_AUTHENTICATION_REQUEST` is
-- `handle_authentication_request`. An operation of the driver is an action: it takes the state and
-- gives a result, which may be an exception, and the state that it leaves, also behind an exception.
-- The socket is what was written so far and what the server has sent so far. Cursors, prepared
-- statements and streams are shared objects, kept in lists and named by their place.
--
-- Bounds: the loops over messages run on fuel, a message for each unit; a loop without fuel is `stuck`,
-- which no Python exception equals. One unit for each message up to the ReadyForQuery is enough, for
-- start-up and `execute` too, which pass their fuel to each loop. The
-- nested arrays of `array_recv_binary` take fuel from the length
-- of the data, of which each level takes some. Integers of the wire are of 16, 32 and 64 bits with
-- their ranges; Python's integers are unbounded.
--
-- A login keeps the properties as a dict from the attributes' names, the cache of temporary credentials
-- that all logins share, and the requests for new ones so far. The credentials that a SAML provider returns
-- are one object with those in its cache, so that a change is seen in both.
--
-- Cursor 0 is `_cursor` and cursor 1 `_run_cursor`; `connect` in Session is `Connection.__init__`, and
-- `prepare_connection` in Iam is `redshift_connector.connect` before that. A file that
-- insert_data_bulk reads is what the csv reader gives, its rows or its exception.
--
-- Not modelled: sockets and TLS, logging, hashes, SCRAM, the clock, floats (kept as their IEEE words),
-- the readers of dates and times, the class timedelta, JSON and the Unicode tables of `isalnum`, which are
-- parameters where the code needs them; the identity provider plugins, which ask other services, but for
-- what they share about SAML assertions; boto3 and bs4, which `Iam` takes as records of functions; the
-- SQL texts of the catalog queries of the cursor; a host that is a list.
--
-- Where the model is narrower than Python: a negative column length other than -1 is refused as malformed, where
-- the source slices with it; max_prepared_statements is not negative; a statement whose caches are cleared while
-- they are iterated ends without RuntimeError; a plugin that is loaded does not change the login's properties; a
-- tuple as the first element of an array is refused without a look at its own elements; the row description
-- that a cursor caches is computed again for each row.
pub mod Connection
pub mod Cursor
pub mod Iam
pub mod Interval
pub mod Paramstyle
pub mod Prelude
pub mod Session
pub mod Tests
pub mod Types
pub mod Wire
