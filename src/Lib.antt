-- ===== src/Lib.antt =====
-- Verification of the health-check automation: the work queue and its clients, the checklist
-- resolver, the validation of results, the choice of the instance to reclaim, and the live runner's
-- creation, cleanup and reclamation of instances.
--
-- How the parts work together. A checklist gives tasks with dependencies, and the resolver orders
-- them (Checklist). A producer puts tasks into the queue, workers take them and acknowledge or
-- refuse them, a scheduler brings refused tasks back when their backoff is over, and a reaper
-- brings back those of workers that died (Queue). The assertions of a
-- test case judge the state that a run leaves (Validator; the worker does not call it yet). The
-- worker runs Terraform for a task and acknowledges or refuses it (Execution), the failures are
-- classified (Classification), and a subnet for the run is chosen that is free of the existing ones
-- (Subnet). The stages of the live runner are selected with what they depend on, and pass their
-- gates before they run (Stage). One of them creates an instance for each image, queues what fails
-- and tries it again (Live/Instance); an instance of the run may be deleted after a quota error
-- (Live/Cleanup); and the oldest machine of an earlier run, chosen from the provider's inventory
-- (Inventory), may be reclaimed (Live/Reclaim).
--
-- Which file models what:
-- Base: the Boolean tests, lists, dictionaries and texts that the program takes from Python.
-- Checklist/Resolver: DependencyResolver of src/hc/checklist/resolver.py. The loop over the queue
--   runs on fuel, one round for each task, which is enough since a task enters the queue once.
-- Checklist/Loader: the dependencies that src/hc/checklist/loader.py finds. Checklist/Renderer and
--   Checklist/Producer: src/hc/checklist/renderer.py and producer.py, the first wave of tasks.
-- Queue/Task: src/hc/models/task.py. Queue/Redis: the server, a parameter given by the documented
--   effect of its commands; Queue/Redis/Reference is one that meets it. Queue/RedisQueue:
--   src/hc/queue/redis_queue.py, each method a function from the server's data to the server's
--   data. Queue/Reaper: src/hc/queue/reaper.py; Queue/Reaper/Reach: any sequence of the methods of
--   producers, workers, scheduler, reaper and operators. Queue/Producer: src/hc/producer.py.
--   Queue/Wire: a serialiser that meets what is asked of pydantic's, for the tests.
-- Validator: src/hc/validator/core.py with the records of src/hc/models/checkpoint.py and
--   src/hc/executor/models.py; a module for each validator, and Composite for all of them.
-- Inventory: src/hc/inventory/fptcloud_inventory.py, the choice; Inventory/Listing, the reading.
-- Classification: src/healthcheck/classification.py; Classification/Patterns:
--   src/hc/executor/classifier.py.
-- Subnet: the subnet candidates of src/healthcheck/discovery.py. The loop runs on the number of
--   attempts, which is the bound of the source.
-- Stage: the gates of src/healthcheck/spec_loader.py. Stage/Select: select_stages, whose recursion
--   is bounded by a depth; a rank of the dependencies says which depth is enough.
-- Execution: execute of src/hc/executor/executor.py; Execution/Worker: a round of src/hc/worker.py
--   over the queue.
-- Live: the state of a run (src/healthcheck/state.py, logging.py) and the commands that terraform
--   is given; each function of the live runner goes from one World to the next, and what terraform
--   answers may depend on every command before. Live/Workspace: what
--   src/healthcheck/terraform_executor.py reads from a workspace. Live/Lock: its ResourceLock, with
--   the processes that use it as steps. Live/Cleanup and Live/Reclaim: src/healthcheck/cleanup.py.
-- Live/Instance: src/healthcheck/instance_runner.py. Attempt is _execute_one_image_attempt,
--   Create execute_instance_create, Naming the names and tags of instances, Stages the stages
--   around the creation, and Quota the quota export and its stages. Live/Pending:
--   wait_for_pending, which runs on the number of polls that the clock allows.
-- Live/Password: generate_instance_password of src/healthcheck/state.py and the policy.
--
-- What stands for code outside of the repository: the record Redis for the server, the record Codec
-- for pydantic, json and hashlib, the record Runtime for Python's str, re.search and int, functions
-- for the HTTP, SSH and WinRM clients and for the matches of a template's references, the
-- record Ip for ipaddress, the record Steps and the function Terraform for what Terraform's
-- commands do. Times are whole milliseconds, the jitter ratio is in thousandths, and letters and
-- spaces are those of ASCII where the case of a text matters. Of an event of the live runner
-- the stage, the status and the classification are kept, and the reason of a pending check is left
-- out. Retry policies have no negative numbers, which the program's validator would admit.
--
-- Not modelled: the discovery of provider resources and the stages of the live runner that are
-- built on it, the loading of checklists and of the stage catalog, the command line,
-- configuration, files of the log and reports, which are mostly input and output.
pub mod Base
pub mod Checklist
pub mod Queue
pub mod Validator
pub mod Inventory
pub mod Classification
pub mod Subnet
pub mod Stage
pub mod Execution
pub mod Live
