-- ===== src/Lib.antt =====
-- Verification library of the CasperCloud control plane.
--
-- CasperCloud is a control plane for virtual machines of several projects. An API server stores what
-- is asked for in PostgreSQL and publishes tasks to a broker; a worker takes the tasks and calls
-- libvirt and the host. The library models the repository (the statements), the services (the
-- requests of the API and the task handlers of the worker), the HTTP API in front of them, the
-- worker with its queues, the NAT rules of the host, and the pure functions of the libvirt adapter
-- and of cloud-init.
--
-- Parts, and the files that model them:
--   Prelude       native numbers, Boolean tests, lists as tables (select, update, delete), texts as lists
--                 of code points.
--   Data          the states of internal/service/instance_service.go and internal/repository/snapshots.go,
--                 the rows of internal/repository/models.go, volumes.go and floating_ips.go, and `Db`, the
--                 tables. A UUID, a time and an address are numbers.
--   Exec          how a service runs: `World` is the database, the queue, the log of requests to the
--                 hypervisor and the host, and `faults`, which tells of each coming call of the outside
--                 whether it fails. What was done before a failure stays done. Exec/Keeps has the rules for
--                 what a run keeps, Exec/Success what a run that returns has done.
--   Repository    one function per statement of internal/repository: `Statement` gives an error or a
--                 result with the new tables, so a failed transaction changes nothing. Instances, Tasks,
--                 Images, Snapshots, Volumes, FloatingIps, Accounts (users, projects, memberships), Hosts
--                 and Networks (ipam.go), Create (instance_ipam.go and `CreateProject`), and Destroy
--                 (`FinalizeInstanceDestroy`). Pools and Claims have what a pool holds and gives.
--                 Sound and Repository/Sound have what each statement keeps: the
--                 tables are well formed, and the rows of another project, in every table that has
--                 rows of projects, are what they were.
--   Service       internal/service. Actions (`taskTypeForAction`, `actionAllowed`), Requests
--                 (`RequestInstanceAction`), Lifecycle (`handleSimpleLifecycle`), Create
--                 (`HandleCreateTask`), Destroy (`HandleDestroyTask`), Snapshots, Volumes
--                 (volume_service.go), FloatingIps (floating_ip_service.go), Sync
--                 (`SyncHypervisorWithDB` and `BatchUpdateInstanceStates`), Async (`CreateAsync`,
--                 `GetInstanceStats`), Accounts (auth_service.go, project_service.go). Steps has what handlers share.
--                 Calls puts the operations of a project in one type, so that a history is a list of them.
--                 Service/Sound has what each operation keeps, Isolation what a history keeps, and
--                 Service/Outcomes what a request or a handler has done when it returns.
--   Libvirt       internal/libvirt: Names (`SanitizeLibvirtName`), Disks (`NextVirtioDataDiskTarget`),
--                 Escape (`xmlEscapeAttr`, `escapeSnapshotXMLText`); Targets, Bounds and Escaped have what
--                 they give.
--   Ingress       internal/network/ingress.go: Rules (the arguments of iptables), Host (`AssociateIP`,
--                 `DisassociateIP`, `FloatingNATRulesPresent`); Answers has the laws of iptables, Pairs and
--                 Kept the rules that are left.
--   CloudInit     internal/cloudinit/generator.go and network_config.go: the texts that a new machine gets.
--   Worker        internal/worker/worker.go and internal/queue/rabbitmq.go. Messages (the message as it is
--                 sent), Dispatch (`handleMessageBody`), Broker (the two queues and `finalizeDelivery`),
--                 Loop (`processDelivery` and the rounds of `Run`). Dispatched relates a message that a
--                 service publishes to the handler that it is meant for; Isolation, Retries and Conserved
--                 are about what any message, and a failing task, can do.
--   Api           internal/httpapi and internal/apitypes. Responses (`mapRepoError` and the writers), Bodies
--                 (the bodies, with their validation), Access (`authMiddleware`, `projectTokenMatchesURL`,
--                 `requireProjectAccess`), Server (what a server is made of), Projects (the handlers below a
--                 project), Router (the routes and the other handlers). Scope, Reads, Accounts, Isolation
--                 and Tenants have what requests keep, Tokens what a token opens.
--   Tests         fixtures, runs at concrete inputs, and the theorems applied to them.
--
-- A statement that PostgreSQL runs is modelled by the source's SQL: its WHERE clause is a test of a row,
-- and the constraints of migrations/ (unique names, foreign keys, what a DELETE does to rows that refer
-- to the row) are part of the statement. Statements run one at a time; a lock of another transaction
-- (SKIP LOCKED) is a parameter. The answers of libvirt that the code reads (whether a domain runs, its
-- XML, the paths of images) are arguments. An id of `uuid.New()` is an argument, one of the database is
-- its counter.
--
-- Bounds and fuel: the rounds of `BatchUpdateInstanceStates` have the number of updates as fuel, which is
-- enough since every round sends one update at least; the search for a disk's letter has the 25 letters
-- from b to z. The loop of the worker takes one delivery in a round; its rounds are a number that the
-- theorems range over.
--
-- Not modelled: the metrics and their poll; the building of disk and seed images, which calls
-- external programs; the start of the commands, their configuration and connections; and the
-- shutdown of the worker. The calls of libvirt, the broker and the host are input and output: each
-- is a request that succeeds or fails. Packages are parameters, with what they promise as records of
-- laws: JSON and UUIDs (`Codec`), tokens and passwords (`Auth`), netip and PostgreSQL's types
-- (`Net`, `Netip`), iptables (`IptablesLaws`), two tags of the validator (`Tags`). A panic inside a
-- task handler, which the worker turns into an error, is not modelled: no modelled handler panics.
-- Addresses are numbers in the services too, so the error of `DisassociateIP` for an empty address
-- is modelled in Ingress only: a message whose text is no address reaches it.
pub mod Prelude
pub mod Data
pub mod Exec
pub mod Repository
pub mod Service
pub mod Worker
pub mod CloudInit
pub mod Api
pub mod Ingress
pub mod Libvirt
mod Tests
