-- ===== src/Lib.antt =====
-- The Ubuntu Pro client: the services and their contract, the lock and the timer.
--
-- The client attaches a machine to a contract. The contract lists the services, the entitlements,
-- with what each may do on the machine; every service is a class that extends `UAEntitlement` and
-- can be enabled and disabled. A refresh of the contract compares the old access details of a
-- service with the new ones, and the service processes the deltas. A lock file keeps two commands
-- from working at once, and a timer runs jobs in between.
--
-- Which file models which part:
--   Json, Text, Exception: what Python holds after it has read JSON, texts by their characters, and
--     exceptions as results (uaclient/exceptions.py); Json.Dict: the laws of a dict.
--   Machine: the state that the client reads and changes and the actions on it. An action goes from
--     a machine to a result and a machine: what was written before a raise stays written.
--     `H` is the state of the system outside the client.
--   Config, Prompt: is_config_value_true, prompt_for_confirmation, prompt_choices and
--     handle_message_operations (uaclient/util.py).
--   Entitlement: uaclient/entitlements/base.py and entitlement_status.py. A `Service` is a subclass:
--     its attributes, the methods that are abstract in the base class, and what its own `disable`
--     (entitlements/esm.py) and `process_contract_deltas` (repo.py, livepatch.py) do after those of
--     the base class. An `Entitlement` is an instance. An `Env` holds the classes by name and what
--     the base class calls in other modules.
--     Entitlement.Contract, .Kernel and .Applicability only read; .Checks has can_enable and
--     can_disable, .Disable disable, .Enable enable, and .Refresh process_contract_deltas with
--     process_entitlement_delta (uaclient/contract.py). .Verdict, .Stopping, .Outcome, .Blocking
--     and, over .Promises, .Dependents and .Resolved, .Disabled hold the theorems, with .Refusal.
--   Registry: uaclient/entitlements/__init__.py, the list of the classes, the factory and the orders
--     in which services are enabled and disabled.
--   Deltas: get_dict_deltas (uaclient/util.py). Overrides: apply_contract_overrides and what it
--     calls (uaclient/contract.py). Overlay: depth_first_merge_overlay_dict (uaclient/util.py).
--   DataTypes: uaclient/data_types.py, with the classes of values as data. A field says under which
--     name `__init__` keeps it, where that is not its key (`createAt` of AccountInfo).
--   Lock: uaclient/lock.py and check_lock_info (uaclient/config.py). Lock.World: several processes
--     that share a directory, as a step relation in which the check and the write of `__enter__` are
--     two steps; two processes that both check before either writes both get in (Lock.Tests runs
--     it), so that the theorems of Lock.System are on runs in which that does not happen
--     (`ChecksApart`). In SpinLock, `ps` may answer anew and other processes work between attempts.
--   Timer: lib/timer.py. The configuration is read from the state at each use: a job may change it.
--   EventLogger: uaclient/event_logger.py; a `Call` is a method that changes the logger.
--   Contract: process_entitlements_delta and request_updated_contract (uaclient/contract.py), over
--     Registry and Entitlement.Refresh.
--   TokenFile: MachineTokenFile (uaclient/files.py), over Overlay and, in .Classes, the classes of
--     uaclient/contract_data_types.py as data of DataTypes.
--   NoticeFile: NoticeFile (uaclient/files.py).
--   Cli: the guards of the commands, detach and disable (uaclient/cli.py), over Lock and Entitlement;
--     Cli.Enable: enable, over Contract. .Released, .Found, .InTurn and .Zero have the theorems.
--   Security: uaclient/security.py. .Package and .Notice hold what the API says of an issue, .Merge
--     the merge of the notices, .Affected the packages that are affected, .Ask the prompts, .Upgrade
--     one upgrade, .Fix and .Groups the packages by status and pocket, .Prompt the fix of the affected
--     packages and .Issue the command. .Entries, .Latest, .Versions and .Related have the theorems on
--     the merge, .DryRun and .Unchanged on a dry run, .Grouped and .Verdict on the verdict.
--   Dict: dicts with texts as keys and sorting; Machine.OnlyShows and .Avoids: predicates on actions.
--   Modules called Tests hold runs on small inputs.
--
-- Bounds. Services enable and disable one another, and the sort of the services visits itself:
-- `enable`, `disable` and `sort_visit` take a bound on the depth of these calls, which stands for
-- Python's limit on recursion, and raise recursion_error at 0. A bound above the ranks is enough for
-- the sort, as its theorem says. `spin_from` is bounded by the attempts, one above max_retries. The
-- loops of the other modules are structural recursion on lists.
--
-- Simplifications. Numbers, times and dates are natural numbers or integers; `strptime`, the time,
-- the platform, the cloud and the request to the contract server are parameters. Characters, digits
-- and spaces are those of ASCII. A message is its constant and what its template is filled with;
-- the text of a prompt is left out. `application_status` only reads. `_valid_service` is computed
-- anew at each use. `dict.update` with a sequence of pairs is modelled for the empty one only. The
-- lock file is a record and not the text `pid:holder`, `check_lock_info` is one step, and so is what
-- `__enter__` writes. `valid_services` is modelled before its result is sorted.
--
-- Of the fix of an issue, the parameters are dpkg and its order of versions, apt, the API, `set.pop`,
-- and the commands attach, enable and detach (`Calls` and `Queries`). A dict is in the order of
-- insertion; a set is a list that holds no element twice. `datetime.now` is a parameter. JSON that is
-- written and read again is a parameter of TokenFile, with what decodes times.
--
-- Not modelled: attach, the parsers and the error handler of the command line, status, the
-- configuration, the entitlements read from a token, security_status, the
-- subclasses of the services, apt, snap, clouds, the HTTP clients, the API, the daemon, the jobs and the
-- scripts under lib other than the timer. They call the system or print, and the modelled parts take
-- what they use of them as parameters.
pub mod Base
pub mod Contract
pub mod Cli
pub mod TokenFile
pub mod EventLogger
pub mod Exception
pub mod Text
pub mod Config
pub mod Machine
pub mod Prompt
pub mod Overrides
pub mod NoticeFile
pub mod Overlay
pub mod DataTypes
pub mod Timer
pub mod Lock
pub mod Entitlement
pub mod Registry
pub mod Json
pub mod Deltas
pub mod Dict
pub mod Security
