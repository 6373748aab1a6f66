-- ===== src/Lib.antt =====
-- The Python tools that the repository keeps under
-- SkyStone-master/platform-tools/systrace/catapult: libraries for Android devices (devil), for
-- finding and downloading the programs that a tool needs (dependency_manager), and the parts of
-- systrace that drive them. Paths below are relative to that folder.
--
-- Base: Boolean tests, list helpers and dictionaries that the other modules share. A Python dict is
-- the list of its entries in the order of insertion, where Python 2 has an order of its own.
--
-- Python: the exceptions, and methods that change a state and may raise: what was written before a
-- raise stays written.
--
-- Texts: str methods on texts, which are lists of byte values.
--
-- Flags: devil/devil/android/flag_changer.py. Flags.Chars has the characters and str methods as
-- lists of byte values, Flags.Parse the tokenizer _ParseFlags, Flags.Quote the functions _QuoteFlag
-- and _SerializeFlags, Flags.Changer the class FlagChanger over the interface Flags.Device of a
-- device. The stack of states is a top and the rest, since it is never empty. A set of flags is a
-- list that is read by membership and by an iteration in an order that is a parameter. An exception
-- of a device operation is not modelled, nor is logging. The loop over the characters is structural.
--
-- Deps: dependency_manager/dependency_manager. Deps.LocalPath is local_path_info.py, Deps.Cloud
-- archive_info.py and cloud_storage_info.py, Deps.Info dependency_info.py, Deps.Manager and
-- Deps.Fetch manager.py. A method that may raise returns a result and the state that it leaves.
-- Deps.System is the interface of what the package calls: the file system, cloud_storage and the
-- archive tools; its one law says that a change of mode neither makes nor removes a file. A config
-- is given by its type and what its iteration yields and raises. Checks of Python types are not
-- modelled.
--
-- Forwarder: devil/devil/android/forwarder.py. Forwarder.Ports has str.split(':') and int() of a
-- text, Forwarder.Host is the interface of the host, the device and the host_forwarder program,
-- Forwarder.Instance and Forwarder.Unmap the methods on the one instance, and Forwarder.Process the
-- static methods that create the instance when they need it. Forwarder.Reach has them as steps. A command is its words as a data type;
-- a run of it ends with an exit code and an output, a timeout or an OSError. Calls are taken one at
-- a time, as under the file lock. Logging is left out except where it calls the device or raises.
--
-- Tracing: systrace/systrace/tracing_controller.py. Tracing.Agents is the interface of the tracing
-- agents, of which the one of the controller is one, and of the modules that make them;
-- Tracing.Controller is the class TracingController and CreateAgentsWithConfig. A call of an agent
-- that runs out of time gives false or no result, as the decorator Timeout makes it. StopTracing
-- returns none for False. Warnings are left out.
--
-- Modules: Module.ComputeLoadSequenceRecursive of common/py_vulcanize/py_vulcanize/module.py, in
-- Modules.Load. A module stands by its name, as in already_loaded_set, and its dependencies are a
-- function of the name. The recursion is on 33 less the depth: the source raises above a depth of 32.
--
-- TraceLog: common/py_trace_event/py_trace_event/trace_event_impl/log.py. TraceLog.Log and
-- TraceLog.Adding have its functions on the variables of the module, for one thread at a time;
-- TraceLog.Events has what they write, as a list of pieces for each file: json.dump and
-- perfetto_trace_writer give one piece. A time is a number of microseconds. A write does not raise.
-- Since there is one thread, the thread of an event is the one that writes it.
--
-- Configs: dependency_manager/dependency_manager, uploader.py and base_config.py. Configs.Uploader
-- is the class CloudStorageUploader, Configs.Data the dictionary of a config file, in which a
-- missing key is none, Configs.Opened the class BaseConfig, Configs.Update its methods that change
-- a writable config, and Configs.Jobs its update jobs. Configs.Storage is the interface of cloud_storage: its laws say
-- that a command that fails changes nothing and one that returns changes its target alone; Disk of
-- Configs.Opened that of the config files. Configs.Infos is IterDependencyInfo, with os.path.sep as
-- a parameter; its infos are what Deps.Manager takes from a config. The dictionary
-- is given in the order in which Python walks over it, which is not that of the file. A user interrupt in the middle of a method is left out.
-- Values in the dictionary are texts, so that a type error in a malformed file is not modelled.
--
-- Battery: devil/devil/android/battery_utils.py. Battery.Profiles is its table of devices,
-- Battery.Info what it reads of a device, with RetryOnSystemCrash of crash_handler.py,
-- Battery.Charging and Battery.Level its methods, and Battery.Wait the function WaitFor of
-- devil/devil/utils/timeout_retry.py without max_tries. Battery.Device is the interface of the
-- device, on which a command may raise. Each wait is inside a thread group with a timeout: the
-- seconds that it had left after the last sleep are a part of the state, and the device tells how
-- many have passed since. They are compared before a sleep alone; the watchdog that ends a thread in
-- the middle of a command is not modelled.
-- Since a wait period is at least a second, a wait makes at most one check more than there are
-- seconds left, which is its fuel. Battery.Csv is csv.reader and Battery.Power GetPowerData. The
-- decorators of timeouts and retries are not modelled.
--
-- Retry: RetryOnException of common/py_utils/py_utils/retry_util.py and the loop of Run of
-- devil/devil/utils/timeout_retry.py, in Retry.Loop. The loops are on the retries that are left. An
-- attempt is any call that ends with a value or an exception; its thread is not modelled.
--
-- Locks: _FileLock of common/py_utils/py_utils/cloud_storage.py, as the steps of any number of
-- processes. Locks.Steps has what they share and each step, which is one call on a file or a lock;
-- the attempts that WaitFor repeats are steps that may or may not follow. A file is a number, new
-- ones are not locked, and a lock is on a file and not on its path. A process that dies with a lock
-- is not modelled.
--
-- Cloud: the rest of cloud_storage.py. Cloud.Gsutil is the interface of the host and of the program
-- gsutil, Cloud.Errors the error that a message of gsutil stands for, Cloud.Commands the functions
-- that are one command, Cloud.Files the interface of the file system, the clock and hashlib,
-- Cloud.Hash the hashes of files and Cloud.Fetch the downloads. A command is its words as a data
-- type, in which a URL is apart. Nothing is assumed of what gsutil does to the buckets.
-- A time is a natural number. How the hash of an object is written as a path of the bucket, what
-- os.walk finds and os.path.splitext are parameters. Logging and the texts of exceptions are left out.
--
-- Usb: devil/devil/utils/find_usb_devices.py and usb_hubs.py. Usb.Nodes has the classes of nodes as
-- one tree with a kind at each node, Usb.Lines the regular expressions as readers of a line,
-- Usb.Reading GetBusNumberToDeviceTreeMap, Usb.Hubs usb_hubs.py, Usb.Tty and Usb.Ports the maps. An
-- object that FindDeviceNumber finds and a method changes is a change of the tree at that place:
-- each node is in one tree, at one place. The children of a node stand in the order in which they
-- were added. The outputs of the programs are parameters. A serial that is set on a bus is dropped.
-- A generator is the list that it yields and what it raises in the end.
--
-- Expect: common/py_utils/py_utils/expectations_parser.py. Expect.Matcher is the regular expression of
-- an expectation: each part gives the list of its matches, in the order in which a backtracking
-- matcher tries them, and the match is the first one of the whole. Expect.Parser is the class
-- TestExpectationParser on the lines of the file; what it has parsed before an error is dropped, as
-- its constructor raises.
mod Base
mod Python
mod Texts
pub mod Flags
pub mod Deps
pub mod Forwarder
pub mod Tracing
pub mod Modules
pub mod TraceLog
pub mod Configs
pub mod Battery
pub mod Retry
pub mod Locks
pub mod Cloud
pub mod Usb
pub mod Expect
