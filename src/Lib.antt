-- ===== src/Lib.antt =====
-- A model of the core of the racetify API, and what holds of it.
--
-- The API serves organizers of races: people sign in and keep sessions, workspaces (tenants) have
-- members with roles, and a workspace's events have races, a crew, and participants, who are mostly
-- imported from files; long work is done by workers, from a queue of jobs. The parts that are modelled, and where:
--
--   Base            lists, options, integers and Boolean tests that the other files share
--   Domain          internal/domain/errors.go: the sentinel errors, and results that carry one
--   Database        internal/platform/database/database.go: a transaction is a function of the store
--                   of tables (`Tx`); WithTx and WithTenantTx commit it or leave the store as it was
--   Text            what the code uses of Go's strings package; the case mapping of a code point is
--                   a parameter (`Unicode`)
--   Security.Jwt    internal/security/jwt.go: claims, issuing and parsing of access tokens; the
--                   signing library is a parameter (`JwtLibrary`)
--   Auth            internal/auth (repository.go, refreshtoken.go, service.go): users and refresh
--                   tokens as tables, Login (Sessions, Login), RefreshAccessToken, SelectTenant and Logout
--                   (Refresh). Random values and the clock are arguments (`Fresh`, `Mint`, `now`);
--                   hashing, the password check and the membership check are fields of `Env`
--   Participant     internal/participant: NormalizeBloodType (BloodType), Normalize, Validate,
--                   CheckTeamComposition (Rules, Normal), and the import planner PlanImport (Import): its
--                   first pass row by row, its second pass over the teams (Import.Teams)
--   Tenant          internal/tenant, internal/platform/rbac: the tables of tenants, members and
--                   invitations with their statements, UpdateMemberRole and RemoveMember (Members),
--                   the life of an invitation (Invitations), CreateTenant and SetTenantStatus
--                   (Workspaces)
--   Pagination      internal/platform/pagination/pagination.go, and the query that the repositories'
--                   List methods make with it: NormalizeLimit, a page by keyset, and a client that
--                   follows the cursors (`read_pages`). The order of ids in the database is a
--                   parameter (`IdOrder`)
--   Jobqueue        internal/jobqueue, internal/domain/job.go: the table of jobs and the list in
--                   Redis, Enqueue, Dequeue and the marks (Jobqueue), GetJob and ListJobs (Reads),
--                   the handlers by type (Dispatcher), the poll loop Run (Runner), and the API with
--                   any number of workers as a step relation (Workers). Handlers and which values
--                   json.Marshal accepts are parameters
--   Event           internal/event (event.go, service.go, repository.go): RaceFormat with Normalize,
--                   Validate and Equal (Format), CreateEvent, UpdateEvent and SetEventStatus
--                   (Events), CreateRace, UpdateRace and DeleteRace (Races). The floating point
--                   numbers of lengths and their rounding by the database are a parameter (`Floats`)
--   Crew            internal/event (assignment.go, assignment_service.go, assignment_repository.go,
--                   capability.go, access.go): AssignToEvent, UpdateAssignment, RevokeAssignment and
--                   AcceptEventInvitation (Service), and RequireEventAccess (Access)
--
-- The parts meet in the store and in a few calls: a refresh asks the memberships for the tenant that
-- a token carries (`Env.active_role`, which Tenant.active_role answers), an invitation is accepted
-- by a user of Auth, the gate of an event asks the memberships of its workspace, a list of jobs is a
-- page of Pagination, and every service operation is one transaction of Database.
--
-- Every function is total: the loops of the source run over lists and are structural recursion. The
-- loop of a worker runs for a list of rounds, and a client reads so many pages; that as many rounds as
-- there are ids in the list, and one page more than there are rows, are enough is proved. Times are
-- whole numbers of one unit, from an origin before every date. A BIB and a leg are unbounded integers;
-- the code's are 64-bit ones on which only comparisons are done. The tables are lists; a primary key
-- is the first row with the key. The columns of a race keep what they can of its lengths and numbers;
-- an e-mail address is compared up to case, as CITEXT is.
--
-- Not modelled: lost connections and failed commits, foreign keys but for the rows that go with a
-- race, triggers but for the one of tenant_members, the texts of messages, e-mails, audit metadata,
-- HTTP handlers and the other middleware, the text form of a cursor, the galleries, storage, rendering
-- and face search of the API, applying an import plan, registration and the Google sign-in. An
-- argument that an operation only hands to the audit log is left out.
pub mod Base
pub mod Domain
pub mod Database
pub mod Security
pub mod Text
pub mod Auth
pub mod Participant
pub mod Tenant
pub mod Pagination
pub mod Jobqueue
pub mod Event
pub mod Crew
