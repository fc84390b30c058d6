-- ===== src/Lib.antt =====
-- Verification of the Skyline API server: the back end of an OpenStack dashboard, which limits the
-- lifetime of instances, keeps settings and revoked tokens in a database, and asks per-service
-- policies what a user may do.
--
-- The parts and their files, with the code that they model, as paths below skyline_apiserver/ at the
-- root of the repository (config/base.py is skyline_apiserver/config/base.py):
--   Common, Runtime: lists, integers, tables, dicts; JSON values and exceptions as values.
--   Config: config/base.py, and the option names of config/openstack.py.
--   Db: db/api.py over the tables of db/models.py. The state `Db` has one list of
--     rows to a table; each function of api.py is one transaction under its own name.
--   Profile, Roles: schemas/login.py and utils/roles.py.
--   World: what a handler works on (the database, the requests sent, the clock) and the monad `M`
--     over it, in which an exception keeps what was written before; the rules on its steps are in
--     World/Keeps, World/Loops, World/Makes, World/Reads, World/Sends, World/Transacts and World/Within.
--   Env, Mail: the configuration and the answers of other services; utils/email.py.
--   Scheduler: utils/lifecycle_scheduler.py. `run_lifecycle_check` is one run, `rounds n` the first
--     n rounds of the endless loop. It reads the rows that Lifecycle changes, and sends by Mail.
--   Lifecycle: api/v1/lifecycle.py, the status of an instance's lifetime and its extension.
--   Setting: api/v1/setting.py, over the settings table and the configuration.
--   Policy: policy/base.py, policy/__init__.py, policy/manager/base.py and api/v1/policy.py: rules,
--     enforcers, the context of a request, and the two handlers that ask the enforcers.
--   Cloud: the calls of client/openstack/nova.py, cinder.py and neutron.py that handlers make.
--   Instance: api/v1/instance.py, the handlers that request, delete, start, stop and restart
--     instances and attach volumes, and the background task that deletes volumes.
--   Forwarding: add_port_forwarding and delete_port_forwarding of the same file, with the choice of a
--     port in client/openstack/neutron.py.
--   Provision: setup_instance_networking of the same file, and the part of its _provision_instance
--     that registers the lifetime of a new instance, where the rows that Scheduler reads begin.
--   Prometheus: api/v1/prometheus.py, which shows a user the metrics of the own project.
--   Keystone: client/openstack/system.py and the questions of client/openstack/keystone.py, over HTTP.
--   Session: core/security.py, api/deps.py and the middleware of main.py. `validate_token` takes the
--     handler as an argument, which is given the state that the middleware leaves in the request.
--   Activity: client/openstack/activity.py and api/v1/activity.py.
--   Login: api/v1/login.py, over Keystone, Session, Activity and the revoked tokens of Db.
--   Signup: the creation of users and the change of passwords in client/openstack/keystone.py, and
--     api/v1/user.py.
--   Portforward: client/portforward_client.py and api/v1/portforward.py.
--   Extension: the two listings of servers of api/v1/extension.py.
--   Samples, and a module Tests in each part: the theorems at concrete data.
--
-- Bounds: integers are Python's, without a width. Loops over lists and attempts are structural; the
-- numbers of attempts (3, 10, 12, 24, 60, 100) are those of the code. The batches of Extension take the
-- length of the list as fuel, which is enough since each takes at least one item. The endless
-- loop of the scheduler is modelled by its first n rounds, for every n.
--
-- What other services and libraries answer is a field of `Env` or `Cloud`, or a parameter, and may
-- depend on all that went before: smtplib, the OpenStack clients, oslo.policy's parser and checks,
-- file reading, formatting of times. SQL statements are read by their meaning on the rows. Times
-- are whole seconds. A column's width, concurrent requests and log lines are not modelled. A
-- statement of the database raises where a row is inserted for an instance that has one, and in the
-- deletion of an instance, where `Cloud` says so; elsewhere the database is taken to answer.
--
-- Not modelled: in api/v1/extension.py the volumes, snapshots, ports and services, in
-- api/v1/instance.py the rest of provisioning, the listings, the encoding of
-- tokens (a parameter), the tables of policy rules, the command line tools, the handlers that only
-- pass on to a client library, and migrations.
pub mod Common
pub mod Runtime
pub mod Config
pub mod Db
pub mod Portforward
pub mod Profile
pub mod Roles
pub mod World
pub mod Activity
pub mod Extension
pub mod Forwarding
pub mod Keystone
pub mod Login
pub mod Session
pub mod Signup
pub mod Env
pub mod Cloud
pub mod Instance
pub mod Mail
pub mod Scheduler
pub mod Lifecycle
pub mod Setting
pub mod Policy
pub mod Prometheus
pub mod Provision
pub mod Samples
