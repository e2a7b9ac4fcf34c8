-- ===== src/Lib.antt =====
-- Kilonova, a platform for programming contests: the service layer's rules and the grader.
--
-- The program keeps users, problems, contests and submissions in a PostgreSQL database (db/), puts a
-- service layer over it (sudoapi/, type BaseAPI) that decides who may do what, and grades submissions
-- in eval/grader. A request enters by api/ or web/, which call the service layer; CreateSubmission
-- writes a row and wakes the grader, which takes the row through executeSubmission and writes the
-- verdict back by the same layer.
--
-- Files and the code they are about:
--   Status          status.go: errors with an HTTP code. A Go error is a tree of wrapped errors, and
--                   a text is its format string, without the arguments filled in.
--   User            user.go: IsAuthed, IsAdmin, IsProposer, Brief. A nil pointer is none.
--   Contest         contest.go: the record and its methods; Contest/Access is CanJoinContest,
--                   CanSubmitInContest, CanViewContestProblems, CanViewContestLeaderboard
--                   (sudoapi/contest.go), IsContestVisible and UserContestFreezeTime
--                   (sudoapi/filters.go), and ContestProblem (sudoapi/problem.go).
--   Contest/Creation   CreateContest (sudoapi/contest.go, db/contest.go).
--   Contest/Staff   AddContestEditor, AddContestTester, StripContestAccess and the loops over editors
--                   and testers in CloneContest (sudoapi/contest.go, db/access.go).
--   Contest/Registration   RegisterContestUser, StartContestRegistration, KickUserFromContest
--                   (sudoapi/contest_registrations.go), their statements
--                   (db/contest_registrations.go, db/submission.go) and acceptContestInvitation
--                   (api/contest.go), over tables that are lists of rows.
--   Problem         problem.go, blogpost.go and their tests in sudoapi/filters.go.
--   Decimal         the interface of github.com/shopspring/decimal.
--   Submission      submission.go; Submission/Visibility is isSubmissionVisible, subVisibleRegardless,
--                   filterSubmission and SubmissionCode; Submission/Create is CreateSubmission and
--                   RemainingSubmissionCount (sudoapi/submission.go).
--   Grader          the rows of one submission and their updates (db/submission.go, db/subtest.go,
--                   db/sub_subtask.go); Grader/Subtest, Score, Icpc and Execute are
--                   eval/grader/grader.go: handleSubTest, scoreTests and handleClassicSubmission,
--                   handleICPCSubmission, and executeSubmission with compileSubmission.
--   Grader/Feeder   eval/grader/feeder.go: Wake, runSubmission and the rounds of handle, over the
--                   statuses of the submissions, as functions; Grader/Feeder/Steps is the same loop a
--                   call at a time, Grader/Feeder/Waking who wakes it between its steps
--                   (sudoapi/submission.go, sudoapi/admin.go), and Grader/Feeder/Undisturbed
--                   compares the two.
--   Query           db/querybuilder.go and what is built with it. A text of SQL is a list of pieces,
--                   with placeholders by their numbers; Query/Format is fmt.Sprintf, strings.Join and
--                   strings.TrimSpace on such texts, and the format strings are those of the code.
--                   Query/SubmissionQuery is db/submission.go, Query/Updates the updates of
--                   db/contest.go, db/pblist.go, db/subtask.go, db/subtest.go and db/test.go,
--                   Query/Filters db/external_resources.go, db/verif_session.go, db/contest_qna.go and
--                   the filter of db/pblist.go. A query is the text and the arguments that go to pgx.
--                   Query/Associations is db/many2many.go over the rows of one table.
--   Account         sessions and their cache (sudoapi/session.go, sudoapi/base.go, updateUser of
--                   sudoapi/user.go, db/verif_session.go) in Account/Sessions; UpdateUsername and
--                   ValidUsername in Account/Username; Login, Signup and the password functions
--                   (sudoapi/auth.go, sudoapi/user.go) in Account/Password.
--   Archive         the groups of a problem archive: addGraderProperties
--                   (domain/archive/test/generator.go), parsePropListItem and the loop over the groups
--                   (domain/archive/test/properties_file.go). Texts are lists of bytes.
--                   Archive/Dependencies is the rest of the groups and solveSubtaskDependencies (same
--                   file), Archive/Params domain/archive/test/score_params.go.
--   Scheduler       eval/scheduler/manager.go: New, getBox and releaseBox, as steps of concurrent
--                   requests.
--   Evict           internal/fsevict/fsevict.go: Sweep.
--   Examples        concrete data and the theorems at it.
--
-- State is passed explicitly: an operation takes the tables it may change and returns them with its
-- result. Each statement on the database may fail by a fault that is an argument; a failed statement
-- changes nothing. The grader's writes of a submission's row fail by what they write, as no run makes
-- the same write twice. Queries whose SQL is not modelled are arguments (the records ContestDb, ProblemDb,
-- VisibilityDb, CreateDb, CreationDb), as are the compiler, the sandbox and the checker (Setup, Judge). The
-- goroutines of handleClassicSubmission write different rows, so a run is the list of tests in the
-- order in which their writes land. The cache of session users (github.com/Yiling-J/theine-go), bcrypt,
-- govalidator and the database's lower are interfaces with the laws their documentation states
-- (SessionCacheLaws, LibraryLaws). The sandbox pool is a step relation whose steps any of the
-- concurrent requests may take.
--
-- Bounds: ids, instants (nanoseconds), sizes and counts are natural numbers; the integers that may be
-- negative are in ℤ; all stay far from 2^63. Times that the program keeps as float64 seconds are
-- natural numbers, as they are only compared, clamped and passed on. The database's initial time of
-- -1 for an ungraded submission is not represented. An operation reads the clock once, where the code
-- reads it again at each test. Loops are structural recursion; the only fuel is that of printing a
-- number (Prelude/Text and Archive: n + 1 steps for n, which has at most that many digits) and of the
-- grader's loop, which runs for ever in the code: a round per unit, and one more unit than there are
-- submissions to run is enough. Archive keeps Atoi's bound of 2^63.
--
-- Not modelled: queries with a fixed text, those of the library squirrel, and the scanning of rows
-- (db/, domain/user/userpg), HTTP and pages (api/, web/), the sandbox and the runs in it (eval/box,
-- eval/tasks, RunBox3 and RunMultibox3 of eval/scheduler), files and the rest of the archives
-- (domain/datastore, domain/archive), devices of sessions, mail, Discord, MOSS and configuration.
-- These do I/O or drive libraries, and the rules above do not depend on them. The clock stands still
-- in a sequence of session operations, so the 20 seconds that an entry of the cache lives do not show.
-- Logging is dropped everywhere.
pub mod Prelude
pub mod Status
pub mod User
pub mod Contest
pub mod Decimal
pub mod Problem
pub mod Query
pub mod Account
pub mod Archive
pub mod Submission
pub mod Grader
pub mod Scheduler
pub mod Evict
pub mod Examples
