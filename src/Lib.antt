-- ===== src/Lib.antt =====
-- The rules by which the system administration assistant decides what to say and when, and what it
-- does to the host: its jobs, its configuration and its files.
--
-- The monitor's agents write alerts into a database; the tray polls them and decides which become
-- desktop notifications. Three parts of the monitor feed it: the self-report finds the agents that
-- do not run or whose runs fail, two alert families turn its entries into alerts on a ladder of two
-- severities, and the do-not-disturb manager says whether a notification may be shown. A weekly
-- review takes a lease on the GPU before it starts. The agents run in one process: their runs announce
-- alerts on a bus once they are committed, a broadcaster hands the events to the clients' queues, a
-- reload installs new configuration and makes the job table match it, and the file organiser carries
-- out the plans that move and trash files. The recorded checks of each service are summed up as a
-- score of its reliability, a walk over the configuration file reports keys that nothing reads, a
-- probe finds the window that has the focus, a notifier posts to another
-- application with retries, and after a login the units that failed meanwhile are announced.
--
-- Which file models which part:
--   Shared       texts, dicts keyed by texts, Python's stable sort, Boolean tests.
--   Escalation   sysadmin/core/escalation.py. Each function under its own name; a duration, there a
--                float of hours, is a whole number of microseconds.
--   Tray         sysadmin_tray/notifications.py. Data holds the value objects and the state of
--                NotificationPolicy, Rules the suppression rules, Speak `_consider` and the requests
--                that it builds, Digest the warning digest, Poll `evaluate` with `_coalesce` and
--                `_close_inactive`, Backend the unreachable backend. History is a sequence of the
--                calls that sysadmin_tray/tray_icon.py makes. A method is a function from a policy to
--                a policy and its result; a state is shared with the dict there, so each write to it
--                is put back into the dict. The other files of the folder hold the proofs.
--   Watch        sysadmin/monitor/stalls.py and sysadmin/monitor/failures.py; Liveness is
--                `_check_agent_liveness` of sysadmin/monitor/agent.py, which writes the alerts of
--                stalled agents (its raise loop is in Stalls/Settling) and resolves the others;
--                Health is `_check_agent_failures` and `_check_agent_health` of the same file.
--   Dnd          sysadmin/monitor/dnd.py and its section of sysadmin/core/config.py.
--   SelfMonitor  sysadmin/monitor/self_monitor.py, the summary of one agent.
--   Lease        sysadmin/core/gpu_lease.py, the dispatch of a review.
--   Jobs         sysadmin/core/jobs.py (Plan is `plan_jobs`) and the job table of
--                sysadmin/core/scheduler.py, a dict from job ids.
--   Reload       sysadmin/reload.py: Leaves is `_flatten` and `changed_under`, Diff
--                `diff_services`, Install `reload_configuration`; Handover is
--                sysadmin/monitor/handover.py.
--   Runs         sysadmin/core/agent.py and sysadmin/core/abandoned_runs.py: a step for each thing
--                that a run does, so that a list of steps is an interleaving of the agents' runs. An
--                agent has one run at a time, as its lock has it.
--   Stream       sysadmin/core/event_bus.py and sysadmin/monitor/sse.py.
--   Files        sysadmin/files/actions.py: the system calls, and in Actions and Execute what
--                `execute_plan` does with them; Duplicates is `plan_duplicate_cleanup`.
--                A call that the host refuses changes nothing, but for a copy or a write, which may
--                leave part of a file.
--   Reliability  sysadmin/monitor/reliability.py: Score has the parts of a score, Service
--                `score_service` and `score_services`.
--   Focus        sysadmin/games/focus.py: the line that the script prints and its reading; Probe is
--                the probe, whose calls are answered by the outside one after the other.
--   ConfigKeys   sysadmin/core/config_keys.py: the walk over a parsed file. The pydantic models are
--                data: fields with names, aliases and annotations.
--   Notifier     sysadmin/monitor/notifier.py, with its sections of sysadmin/core/config.py.
--   WordLimit    sysadmin/core/text.py and sysadmin/core/word_limit.py. The matches of a pattern are
--                the lists of their starts and ends.
--   LogSignature sysadmin/monitor/log_signature.py. A pattern's `sub` is a walk over the text.
--   FailureReplay sysadmin/core/failure_replay.py: the wait for the notification server and the
--                announcement of the units that failed.
--   Units        sysadmin/units/scan.py: `restart_is_bounded`.
--   Tests        concrete runs.
--
-- Conventions. A clock reading and a duration are whole microseconds; a float multiplier or a
-- float of hours in a setting is in millionths, so that a reminder interval is `reminder_hours *
-- 3600`. The clock is read once in a call. In Reliability the quotients that Python rounds as
-- floats are exact, so that a tie, which a float may miss, goes to the even neighbour. A
-- difference of clock readings stops at 0, as the monotonic clock and the source's own `max` have
-- it. Texts that are folded to one case or searched for digits, words and white space are ASCII.
-- An exception is `none` where the code lets it pass. Fuel: the printing of a number has one round
-- for each unit and so more than its digits, and the search for a free name in the trash two
-- rounds more than the file system has entries, which is enough since each taken name has an entry
-- and no two numbered names are alike. The wait for the notification server has a round for each
-- microsecond of its budget and one more, as each pause takes at least one. Every other loop is
-- over a list.
--
-- Parameters: `truncate_at_word` of estate.text, the answer of the GPU arbiter
-- (estate.queue.acquire), the rendering of an instant, APScheduler's text of a trigger (none where
-- it raises), the configuration's `model_dump`, the parsed files, an agent's `forget_unknown`, the
-- JSON dump of an event's data, and of the host: which system calls fail and what a torn one
-- leaves, which paths are on one device, what a path resolves to, its size, its time and the hash
-- of its file, and pathlib's stem and suffix; the removal of markdown, the marker of a cut, the
-- hash, the printing of a float, the answers to the focus probe's calls, the parsed YAML and how
-- each HTTP attempt ends; what comes of each run of the guard script, and which notifications
-- land. Nothing is assumed of them, but that a cut text exceeds the number of characters it is cut
-- to by the marker at most, which the length of a title rests on, and that the clock has moved on
-- behind a pause, which the end of the wait rests on.
--
-- Not modelled: the desktop bus of notifications.py (DbusNotifier) and the widgets, which only
-- send and show what the policy decided; the assignment of new settings to a running policy;
-- logging; the `details` that alerts repeat for the API; the queries and the routers, which are
-- the database's; the language model; the walk of the file organiser and its other two planners (a
-- plan is any list of operations here); threads and the event loop, but for the order in which
-- they let the steps happen; writes of other programs to the files of a plan while it runs.
pub mod ConfigKeys
pub mod Dnd
pub mod Escalation
pub mod FailureReplay
pub mod Files
pub mod Focus
pub mod Jobs
pub mod Lease
pub mod LogSignature
pub mod Notifier
pub mod Reliability
pub mod Reload
pub mod Runs
pub mod SelfMonitor
pub mod Shared
pub mod Stream
pub mod Tests
pub mod Tray
pub mod Units
pub mod Watch
pub mod WordLimit
